-- ===== src/Connection/Credit.antt =====
-- The counts and effects that a connection already has do not change what it does next.
pub mod Frames
pub mod Reads
pub mod Cuts
use pajamax.Prelude.{ℕ, ◌+◌, List, ◌++◌}
use pajamax.Outcome.{Outcome, ok, err, panic, stuck}
use pajamax.Connection.Process.State.{Effect, Conn}

-- A connection that has counted and done some things before.
unfoldable pub behind : ℕ → List (ℕ × ℕ) → List Effect → Conn → Conn
behind d l es c = record c {
  data_len = d + c.data_len;
  stream_data_lens = l ++ c.stream_data_lens;
  effects = es ++ c.effects;
}

-- A change of the value, if there is one.
abbrev pub over {ℓ κ} : {A : Type ℓ} {B : Type κ} → (A → B) → Outcome A → Outcome B
over f (ok a) = ok (f a)
over f (err e) = err e
over f panic = panic
over f stuck = stuck
