-- ===== src/Redis/Answering.antt =====
-- A Redis server that answers every pipeline, as an instance of the interface.
use titan_ipoverlay.Prelude.{◌≡◌, refl, Option, List, [], ◌∷◌}
use titan_ipoverlay.Prelude.Str.{Str}
use titan_ipoverlay.Prelude.Exec.{Result, ok, err}
use titan_ipoverlay.Redis.{
  Redis, View, Cmd, hgetall, sismember, zrem, run, replies, apply, AllRead, Reply,
}

pub reads_change_nothing : (cs : List Cmd) (v : View) → AllRead cs → run v cs ≡ v
unfolding run apply
reads_change_nothing [] v h = refl
reads_change_nothing (hgetall k ∷ cs) v h = reads_change_nothing cs v h.1
reads_change_nothing (sismember k m ∷ cs) v h = reads_change_nothing cs v h.1
reads_change_nothing (Cmd.hset _ _ ∷ cs) v h = absurd h.0
reads_change_nothing (Cmd.zadd _ _ _ ∷ cs) v h = absurd h.0
reads_change_nothing (zrem _ _ ∷ cs) v h = absurd h.0
reads_change_nothing (Cmd.sadd _ _ ∷ cs) v h = absurd h.0
reads_change_nothing (Cmd.srem _ _ ∷ cs) v h = absurd h.0
reads_change_nothing (Cmd.del _ ∷ cs) v h = absurd h.0

pub ok_inj : (E A : Type 0) (a b : A) → ◌≡◌ {A = Result E A} (ok a) (ok b) → b ≡ a
ok_inj E A a b h = cc

pub err_not_ok : (E A : Type 0) (e : E) (a : A) → ◌≡◌ {A = Result E A} (err e) (ok a) → ⊥
err_not_ok E A e a h = cc

-- Its data are a view, and its ZPOPMIN fails with the error e.
abbrev pub answering : (E : Type 0) → E → Redis E
answering E e = record {
  Db = View;
  view = λ v. v;
  exec = λ cs v. (ok (replies v cs), run v cs);
  zpopmin = λ k v. (err e, v);
  exec_replies = λ cs v h. ok_inj E (List Reply) _ _ h;
  exec_effect = λ cs v h. refl;
  exec_reads = λ cs v h. reads_change_nothing cs v h;
  zpopmin_some = λ k v h. absurd (err_not_ok E (Option Str) e _ h);
  zpopmin_none = λ k v h. absurd (err_not_ok E (Option Str) e _ h);
}
