-- ===== src/Scanning/Action.antt =====
-- The methods of a scan work on a job and the store.
use avbox.Prelude.{ok}
use avbox.Models.Records.{ScanJob}
use avbox.Jobs.{Store}
use avbox.Effects

pub record Run : Type 0 where
  pub job : ScanJob
  pub store : Store

abbrev pub Action {ℓ} : Type ℓ → Type ℓ
Action A = Effects.Action Run A

unfoldable pub on_job : (ScanJob → ScanJob) → Action (Unit {0})
on_job f r = (ok tt, record r { job = f r.job })

unfoldable pub on_store : (ScanJob → Store → Store) → Action (Unit {0})
on_store f r = (ok tt, record r { store = f r.job r.store })
