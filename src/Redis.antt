-- ===== src/Redis.antt =====
-- The Redis server, which the program only calls: what its stored data look like to a reader, and
-- the documented effect of the commands that the program sends. The program's operations take a
-- `Redis` as a parameter; `exec` is a transaction pipeline (TxPipeline, the commands, Exec).
pub mod Answering
use titan_ipoverlay.Prelude.{
  ℕ, ◌≤◌, ◌≡◌, Bool, true, false, Option, none, some, List, [], ◌∷◌, if◌then◌else◌,
}
use titan_ipoverlay.Prelude.Str.{Str, str_eq}
use titan_ipoverlay.Prelude.Assoc.{Assoc, merge}
use titan_ipoverlay.Prelude.Exec.{Result, ok}

-- The hashes, the sorted sets with their scores, and the sets, by key.
pub record View : Type 0 where
  pub hash : Str → Assoc Str
  pub zset : Str → Str → Option ℕ
  pub members : Str → Str → Bool

-- The commands that are sent in pipelines. HMSET is HSET.
pub data Cmd : Type 0 where
  hset : Str → Assoc Str → Cmd
  zadd : Str → ℕ → Str → Cmd
  zrem : Str → Str → Cmd
  sadd : Str → Str → Cmd
  srem : Str → Str → Cmd
  del : Str → Cmd
  hgetall : Str → Cmd
  sismember : Str → Str → Cmd

pub data Reply : Type 0 where
  done : Reply
  fields : Assoc Str → Reply
  is_member : Bool → Reply

abbrev pub update {ℓ} : {A : Type ℓ} → (Str → A) → Str → A → Str → A
update f k a j = if str_eq k j then a else f j

-- The documented effect and reply of one command, and of a pipeline.
unfoldable pub apply : View → Cmd → View
apply v (hset k m) = record v { hash = update v.hash k (merge m (v.hash k)) }
apply v (zadd k score m) = record v { zset = update v.zset k (update (v.zset k) m (some score)) }
apply v (zrem k m) = record v { zset = update v.zset k (update (v.zset k) m none) }
apply v (sadd k m) = record v { members = update v.members k (update (v.members k) m true) }
apply v (srem k m) = record v { members = update v.members k (update (v.members k) m false) }
apply v (del k) = record {
  hash = update v.hash k [];
  zset = update v.zset k (λ m. none);
  members = update v.members k (λ m. false);
}
apply v (hgetall k) = v
apply v (sismember k m) = v

unfoldable pub reply : View → Cmd → Reply
reply v (hgetall k) = fields (v.hash k)
reply v (sismember k m) = is_member (v.members k m)
reply v _ = done

unfoldable pub run : View → List Cmd → View
unfolding apply
run v [] = v
run v (c ∷ cs) = run (apply v c) cs

unfoldable pub replies : View → List Cmd → List Reply
unfolding apply reply
replies v [] = []
replies v (c ∷ cs) = reply v c ∷ replies (apply v c) cs

abbrev pub IsRead : Cmd → Type 0
IsRead (hgetall k) = Unit {0}
IsRead (sismember k m) = Unit {0}
IsRead _ = ⊥

abbrev pub AllRead : List Cmd → Type 0
AllRead [] = Unit {0}
AllRead (c ∷ cs) = IsRead c × AllRead cs

-- `E` is the type of the program's errors and `failed` the error of a call that does not succeed.
-- A call may fail; then a pipeline of writes may or may not have taken effect.
pub record Redis (E : Type 0) : Type 1 where
  pub Db : Type 0
  pub view : Db → View
  pub exec : List Cmd → Db → Result E (List Reply) × Db
  pub zpopmin : Str → Db → Result E (Option Str) × Db
  pub exec_replies :
      (cs : List Cmd) (db : Db) {rs : List Reply}
      → (exec cs db).0 ≡ ok rs
      → rs ≡ replies (view db) cs
  pub exec_effect :
      (cs : List Cmd) (db : Db) {rs : List Reply}
      → (exec cs db).0 ≡ ok rs
      → view (exec cs db).1 ≡ run (view db) cs
  pub exec_reads : (cs : List Cmd) (db : Db) → AllRead cs → view (exec cs db).1 ≡ view db
  pub zpopmin_some :
      (k : Str) (db : Db) {m : Str}
      → (zpopmin k db).0 ≡ ok (some m)
      → (score : ℕ) × ((view db).zset k m ≡ some score)
        × ((j : Str) (other : ℕ) → (view db).zset k j ≡ some other → score ≤ other)
        × (view (zpopmin k db).1 ≡ apply (view db) (zrem k m))
  pub zpopmin_none :
      (k : Str) (db : Db)
      → (zpopmin k db).0 ≡ ok none
      → ((j : Str) → (view db).zset k j ≡ none) × (view (zpopmin k db).1 ≡ view db)
