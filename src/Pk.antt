-- ===== src/Pk.antt =====
-- xvector/common/pk.py: the generator of Int64 primary keys. A call reads the clock as often as it
-- has to, so it takes the readings that are still to come, in milliseconds, and leaves the rest;
-- `none` means that it still waits when they are used up.
pub mod Order
pub mod Ids
use xvector.Prelude.{
  ℕ, ◌+◌, ◌-◌, ◌*◌, ◌%◌, ◌^◌, Option, none, some, List, [], ◌∷◌, leb, nat_beq, if◌then◌else◌,
}

pub record Snowflake : Type 0 where
  pub worker_id : ℕ
  pub seq : ℕ
  pub last_ms : ℕ

abbrev pub epoch : ℕ
epoch = 1700000000000

-- Snowflake(worker_id); x & 0x3FF is x % 1024
unfoldable pub init : ℕ → Snowflake
init worker_id = record { worker_id = worker_id % 1024; seq = 0; last_ms = 0 }

-- while now <= self._last_ms: now = int(time.time() * 1000)
unfoldable pub wait : ℕ → List ℕ → Option (ℕ × List ℕ)
wait last_ms [] = none
wait last_ms (now ∷ clock) =
    let rest = wait last_ms clock in if leb now last_ms then rest else some (now, clock)

-- (now - epoch) & ((1 << 41) - 1); a difference below 0 wraps
abbrev pub timestamp : ℕ → ℕ
timestamp now = (now + 2 ^ 41 - epoch) % 2 ^ 41

-- (ts << 22) | (worker_id << 12) | seq, whose fields have no bit in common
abbrev pub compose : ℕ → ℕ → ℕ → ℕ
compose ts worker_id seq = ts * 2 ^ 22 + worker_id * 2 ^ 12 + seq

-- self._last_ms = now, and the id
abbrev pub issue : Snowflake → ℕ → ℕ → List ℕ → ℕ × Snowflake × List ℕ
issue s seq now clock =
    (compose (timestamp now) s.worker_id seq, record s { seq = seq; last_ms = now }, clock)

-- after the wait for the next millisecond, with the sequence at 0
abbrev pub issue_at : Snowflake → Option (ℕ × List ℕ) → Option (ℕ × Snowflake × List ℕ)
issue_at s none = none
issue_at s (some (now, clock)) = some (issue s 0 now clock)

-- x & 0xFFF is x % 4096
unfoldable pub next_id : Snowflake → List ℕ → Option (ℕ × Snowflake × List ℕ)
next_id s [] = none
next_id s (now ∷ clock) =
    if nat_beq now s.last_ms
    then (if nat_beq ((s.seq + 1) % 4096) 0
        then issue_at s (wait s.last_ms clock)
        else some (issue s ((s.seq + 1) % 4096) now clock))
    else some (issue s 0 now clock)
