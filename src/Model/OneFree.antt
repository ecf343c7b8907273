-- ===== src/Model/OneFree.antt =====
-- A Redis server on which one node is free, as an instance of the interface. It answers every
-- pipeline; its ZPOPMIN gives that node once, and fails after any other call.
use titan_ipoverlay.Prelude.{
  ℕ, ◌≤◌, ◌≡◌, refl, inl, inr, true, Option, none, some, List, arith, if◌then◌else◌, Bool-cases,
}
use titan_ipoverlay.Prelude.Str.{Str, codes, str_eq, str_eq_iff, str_eq_refl}
use titan_ipoverlay.Prelude.Assoc.{Assoc}
use titan_ipoverlay.Prelude.Exec.{Result, ok, err}
use titan_ipoverlay.Redis.{Redis, View, Reply, apply, zrem, run, replies}
use titan_ipoverlay.Redis.Answering.{ok_inj, reads_change_nothing}
use titan_ipoverlay.Model.{Error, redis_failed, redis_key_node_free}

abbrev pub n1_only : Str → Str → Option ℕ
n1_only k m =
    if str_eq redis_key_node_free k then (if str_eq (codes "n1") m then some 7 else none) else none

-- The data at the start, and after a call.
pub data Data : Type 0 where
  start : Data
  later : View → Data

module _ (stored : Str → Assoc Str) where
  abbrev pub one_free : View
  one_free = record { hash = λ k. stored k; zset = λ k m. n1_only k m; members = λ k m. true }

  abbrev pub view_of : Data → View
  view_of start = one_free
  view_of (later v) = v

  abbrev pub pop_one : Str → Data → Result Error (Option Str) × Data
  pop_one k start =
      if str_eq redis_key_node_free k
      then (ok (some (codes "n1")), later (apply one_free (zrem redis_key_node_free (codes "n1"))))
      else (err redis_failed, start)
  pop_one k (later v) = (err redis_failed, later v)

  lowest_of_one : (j : Str) (other : ℕ) → n1_only redis_key_node_free j ≡ some other → 7 ≤ other
  lowest_of_one j other h = ground (arith, str_eq_refl redis_key_node_free)

  pub pop_one-some :
      (k : Str) (db : Data) {m : Str}
      → (pop_one k db).0 ≡ ok (some m)
      → (score : ℕ) × ((view_of db).zset k m ≡ some score)
        × ((j : Str) (other : ℕ) → (view_of db).zset k j ≡ some other → score ≤ other)
        × (view_of (pop_one k db).1 ≡ apply (view_of db) (zrem k m))
  pop_one-some k start {m = m} h = elim (Bool-cases (str_eq redis_key_node_free k)) [
    | inl e ↦
        let key = (str_eq_iff redis_key_node_free k).0 e in
        let h' = rw e at h in
        let member : codes "n1" ≡ m = cc in
        rw (← key, ← member)
          (
            7,
            rw (str_eq_refl redis_key_node_free, str_eq_refl (codes "n1")) refl,
            lowest_of_one,
            rw (str_eq_refl redis_key_node_free) refl,
          )
    | inr e ↦ (let h' = rw e at h in cc)
  ]
  pop_one-some k (later v) h = cc

  pub pop_one-none :
      (k : Str) (db : Data)
      → (pop_one k db).0 ≡ ok none
      → ((j : Str) → (view_of db).zset k j ≡ none) × (view_of (pop_one k db).1 ≡ view_of db)
  pop_one-none k start h = elim (Bool-cases (str_eq redis_key_node_free k)) [
    | inl e ↦ absurd (let h' = rw e at h in cc)
    | inr e ↦ absurd (let h' = rw e at h in cc)
  ]
  pop_one-none k (later v) h = absurd (ok_none h)
    where
      ok_none : ◌≡◌ {A = Result Error (Option Str)} (err redis_failed) (ok none) → ⊥
      ok_none h = cc

  abbrev pub pop_redis : Redis Error
  pop_redis = record {
    Db = Data;
    view = λ d. view_of d;
    exec = λ cs d. (ok (replies (view_of d) cs), later (run (view_of d) cs));
    zpopmin = λ k d. pop_one k d;
    exec_replies = λ cs d h. ok_inj Error (List Reply) _ _ h;
    exec_effect = λ cs d h. refl;
    exec_reads = λ cs d h. reads_change_nothing cs (view_of d) h;
    zpopmin_some = λ k d h. pop_one-some k d h;
    zpopmin_none = λ k d h. pop_one-none k d h;
  }
