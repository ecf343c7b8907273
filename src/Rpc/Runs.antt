-- ===== src/Rpc/Runs.antt =====
-- Calls of the package model within ippop/rpc/internal/logic.
use titan_ipoverlay.Prelude.{◌≡◌}
use titan_ipoverlay.Prelude.Exec.{Result, ok, err, Exec}
use titan_ipoverlay.Redis.{Redis}
use titan_ipoverlay.Model
use titan_ipoverlay.Rpc.{Service, on_db, as_rpc}

module _ (r : Redis Model.Error) where
  pub on_db-ok :
      {A : Type 0} (m : Exec Model.Error r.Db A) (s : Service r) {a : A}
      → (on_db r m s).0 ≡ ok a
      → (m s.db).0 ≡ ok a
  unfolding on_db as_rpc
  on_db-ok m s {a = a} h = go (m s.db).0 h
    where
      go : (x : Result Model.Error _) → as_rpc x ≡ ok a → x ≡ ok a
      go (ok b) g = cc
      go (err e) g = absurd (cc g)
