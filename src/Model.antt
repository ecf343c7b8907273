-- ===== src/Model.antt =====
-- ippop/model: the records of nodes and users, their keys in Redis, and how they are stored.
pub mod Node
pub mod Bind
pub mod User
pub mod OneFree
pub mod Traffic
mod Tests
use titan_ipoverlay.Prelude.{
  ℕ, Bool, true, false, Option, none, some, List, [], ◌∷◌, ◌++◌, ◌==◌, if◌then◌else◌,
}
use titan_ipoverlay.Prelude.Str.{Str, codes}
use titan_ipoverlay.Prelude.Assoc.{Assoc}
use titan_ipoverlay.Prelude.Int.{ℤ, pos}
use titan_ipoverlay.StructMap.{Value, text, flag, int, Field, Struct, struct_to_map, map_to_struct}

pub data Error : Type 0 where
  redis_failed bad_struct bad_time no_free_node : Error
  node_not_exist user_not_exist : Str → Error
  already_bound : Str → Str → Error

-- reidskey.go
unfoldable pub redis_key_node : Str → Str
redis_key_node id = codes "titan:node:" ++ id

unfoldable pub redis_key_user : Str → Str
redis_key_user name = codes "titan:user:" ++ name

unfoldable pub redis_key_node_zset : Str
redis_key_node_zset = codes "titan:node:zset"

unfoldable pub redis_key_node_online : Str
redis_key_node_online = codes "titan:node:online"

unfoldable pub redis_key_node_bind : Str
redis_key_node_bind = codes "titan:node:bind"

unfoldable pub redis_key_node_free : Str
redis_key_node_free = codes "titan:node:free"

unfoldable pub redis_key_node_blacklist : Str
redis_key_node_blacklist = codes "titan:node:blacklist"

unfoldable pub redis_key_user_zset : Str
redis_key_user_zset = codes "titan:user:zset"

unfoldable pub redis_key_user_route_scheduler : Str
redis_key_user_route_scheduler = codes "titan:user:routescheduler"

pub record NodeInfo : Type 0 where
  pub id : Str
  pub os : Str
  pub version : Str
  pub login_at : Str
  pub register_at : Str
  pub online : Bool
  pub ip : Str
  pub bind_user : Str
  pub net_delay : ℤ
  pub is_blacklisted : Bool

abbrev pub new_node : NodeInfo
new_node = record {
  id = [];
  os = [];
  version = [];
  login_at = [];
  register_at = [];
  online = false;
  ip = [];
  bind_user = [];
  net_delay = pos 0;
  is_blacklisted = false;
}

abbrev field : Str → Str → Value → Field
field name tag value = record { name = name; tag = tag; value = value }

-- The fields of Node in their order, with their tags.
pub node_struct : NodeInfo → Struct
node_struct n =
    field (codes "Id") [] (text n.id)
    ∷ field (codes "OS") (codes "os") (text n.os)
    ∷ field (codes "Version") (codes "version") (text n.version)
    ∷ field (codes "LoginAt") (codes "login_at") (text n.login_at)
    ∷ field (codes "RegisterAt") (codes "register_at") (text n.register_at)
    ∷ field (codes "Online") [] (flag n.online)
    ∷ field (codes "IP") (codes "ip") (text n.ip)
    ∷ field (codes "BindUser") (codes "bind_user") (text n.bind_user)
    ∷ field (codes "NetDelay") (codes "net_delay") (int n.net_delay)
    ∷ field (codes "IsBlacklisted") [] (flag n.is_blacklisted)
    ∷ []

as_text : Value → Str
as_text (text s) = s
as_text _ = []

as_bool : Value → Bool
as_bool (flag b) = b
as_bool _ = false

as_number : Value → ℤ
as_number (int z) = z
as_number _ = pos 0

-- A struct with the ten fields of Node is a Node; `as_text` and the others never meet another kind,
-- since a field keeps its kind when it is read.
node_of_struct : Struct → Option NodeInfo
unfolding as_text as_bool as_number
node_of_struct (a ∷ b ∷ c ∷ d ∷ e ∷ f ∷ g ∷ h ∷ i ∷ j ∷ []) = some (record {
  id = as_text a.value;
  os = as_text b.value;
  version = as_text c.value;
  login_at = as_text d.value;
  register_at = as_text e.value;
  online = as_bool f.value;
  ip = as_text g.value;
  bind_user = as_text h.value;
  net_delay = as_number i.value;
  is_blacklisted = as_bool j.value;
})
node_of_struct _ = none

and_then : {A B : Type 0} → Option A → (A → Option B) → Option B
and_then none f = none
and_then (some a) f = f a

-- structToMap(node), and mapToStruct(m, &Node{}).
unfoldable pub node_to_map : NodeInfo → Assoc Str
unfolding node_struct
node_to_map n = struct_to_map (node_struct n)

unfoldable pub map_to_node : Assoc Str → Option NodeInfo
unfolding node_struct node_of_struct and_then
map_to_node m = and_then (map_to_struct m (node_struct new_node)) node_of_struct

pub record UserInfo : Type 0 where
  pub user_name : Str
  pub password_md5 : Str
  pub start_time : ℤ
  pub end_time : ℤ
  pub total_traffic : ℤ
  pub current_traffic : ℤ
  pub top_bandwidth : ℤ
  pub route_mode : ℤ
  pub route_node_id : Str
  pub update_route_interval_minutes : ℤ
  pub update_route_utc_minute_of_day : ℤ
  pub last_route_switch_time : ℤ
  pub off : Bool
  pub upload_rate_limit : ℤ
  pub download_rate_limit : ℤ

abbrev pub new_user : UserInfo
new_user = record {
  user_name = [];
  password_md5 = [];
  start_time = pos 0;
  end_time = pos 0;
  total_traffic = pos 0;
  current_traffic = pos 0;
  top_bandwidth = pos 0;
  route_mode = pos 0;
  route_node_id = [];
  update_route_interval_minutes = pos 0;
  update_route_utc_minute_of_day = pos 0;
  last_route_switch_time = pos 0;
  off = false;
  upload_rate_limit = pos 0;
  download_rate_limit = pos 0;
}

pub user_struct : UserInfo → Struct
user_struct u =
    field (codes "UserName") (codes "user_name") (text u.user_name)
    ∷ field (codes "PasswordMD5") (codes "password_md5") (text u.password_md5)
    ∷ field (codes "StartTime") (codes "start_time") (int u.start_time)
    ∷ field (codes "EndTime") (codes "end_time") (int u.end_time)
    ∷ field (codes "TotalTraffic") (codes "total_traffic") (int u.total_traffic)
    ∷ field (codes "CurrentTraffic") (codes "current_traffic") (int u.current_traffic)
    ∷ field (codes "TopBandwidth") (codes "top_bandwidth") (int u.top_bandwidth)
    ∷ field (codes "RouteMode") (codes "route_mode") (int u.route_mode)
    ∷ field (codes "RouteNodeID") (codes "route_node_id") (text u.route_node_id)
    ∷ field (codes "UpdateRouteIntervalMinutes") (codes "update_route_interval_minutes")
        (int u.update_route_interval_minutes)
    ∷ field (codes "UpdateRouteUtcMinuteOfDay") (codes "update_route_utc_minute_of_day")
        (int u.update_route_utc_minute_of_day)
    ∷ field (codes "LastRouteSwitchTime") (codes "last_route_switch_time")
        (int u.last_route_switch_time)
    ∷ field (codes "Off") (codes "off") (flag u.off)
    ∷ field (codes "UploadRateLimit") (codes "upload_rate_limit") (int u.upload_rate_limit)
    ∷ field (codes "DownloadRateLimit") (codes "download_rate_limit") (int u.download_rate_limit)
    ∷ []

user_of_struct : Struct → Option UserInfo
unfolding as_text as_bool as_number
user_of_struct (a ∷ b ∷ c ∷ d ∷ e ∷ f ∷ g ∷ h ∷ i ∷ j ∷ k ∷ l ∷ m ∷ n ∷ o ∷ []) = some (record {
  user_name = as_text a.value;
  password_md5 = as_text b.value;
  start_time = as_number c.value;
  end_time = as_number d.value;
  total_traffic = as_number e.value;
  current_traffic = as_number f.value;
  top_bandwidth = as_number g.value;
  route_mode = as_number h.value;
  route_node_id = as_text i.value;
  update_route_interval_minutes = as_number j.value;
  update_route_utc_minute_of_day = as_number k.value;
  last_route_switch_time = as_number l.value;
  off = as_bool m.value;
  upload_rate_limit = as_number n.value;
  download_rate_limit = as_number o.value;
})
user_of_struct _ = none

unfoldable pub user_to_map : UserInfo → Assoc Str
unfolding user_struct
user_to_map u = struct_to_map (user_struct u)

unfoldable pub map_to_user : Assoc Str → Option UserInfo
unfolding user_struct user_of_struct and_then
map_to_user m = and_then (map_to_struct m (user_struct new_user)) user_of_struct
