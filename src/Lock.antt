-- ===== src/Lock.antt =====
-- crates/fileloft-core/src/lock.rs: the traits `Locker` and `Lock`. An acquisition is bounded by
-- tokio's `timeout`, whose result is `none` when the time has run out. `release` is the operation of
-- the trait; `drop_lock` is what Rust does with a guard that goes out of scope, which is all that
-- the handlers do with one.
pub mod Contract
use fileloft.Base.{ℕ, Option}
use fileloft.Error.{Result}
use fileloft.Info.Id.{UploadId}

pub record Locker : Type 1 where
  pub State : Type 0
  pub Lock : Type 0
  pub acquire_within : (timeout : ℕ) → UploadId → State → Option (Result Lock) × State
  pub release : Lock → State → Result (Unit {0}) × State
  pub drop_lock : Lock → State → State
