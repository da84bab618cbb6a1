-- ===== src/Pk/Order.antt =====
-- The ids of the generator in xvector/common/pk.py grow while the clock does not go back.
use mathlib.Core.Option
use xvector.Prelude.{
  ℕ, zero, suc, ◌+◌, ◌^◌, ◌≤◌, ◌<◌, ◌≡◌, ◌≢◌, ◌⊎◌, ◌%◌, subst, sym, ap, ◌∙◌, refl, inl, inr, Option,
  none, some, List, [], ◌∷◌, arith, leb, nat_beq, Bool-cases, Option-cases,
}
use xvector.Pk.{Snowflake, epoch, wait, timestamp, compose, issue, issue_at, next_id}

-- The fields of the generator fit their bits.
pub record Fits (s : Snowflake) : Type 0 where
  pub worker : s.worker_id < 1024
  pub sequence : s.seq < 4096

-- The readings do not go back, start no earlier than `from` and stay below the end of the 41 bits.
abbrev pub Advances : ℕ → List ℕ → Type 0
Advances from [] = Unit
Advances from (now ∷ clock) = (from ≤ now) × (now < epoch + 2 ^ 41) × Advances now clock

-- the id that was issued last
abbrev pub last_id : Snowflake → ℕ
last_id s = compose (timestamp s.last_ms) s.worker_id s.seq

wait-eq-some :
    (from last : ℕ) (clock : List ℕ) {now : ℕ} {rest : List ℕ}
    → Advances from clock
    → wait last clock ≡ some (now, rest)
    → (last < now) × (now < epoch + 2 ^ 41) × Advances now rest
unfolding wait
wait-eq-some from last [] a h = ground arith
wait-eq-some from last (r ∷ clock) {now} {rest} a h = elim (Bool-cases (leb r last)) [
  | inl early ↦ wait-eq-some r last clock a.2 (rw early at h)
  | inr late ↦ ground arith
]

-- a later time, or the same time and a larger sequence number
last_id-lt :
    (s : Snowflake) (seq now : ℕ)
    → Fits s
    → epoch ≤ s.last_ms
    → now < epoch + 2 ^ 41
    → seq < 4096
    → (s.last_ms < now) ⊎ ((now ≡ s.last_ms) × (s.seq < seq))
    → last_id s < compose (timestamp now) s.worker_id seq
last_id-lt s seq now fits start room small (inl later) = omega arith
last_id-lt s seq now fits start room small (inr (same, next)) = omega arith

-- What one call guarantees of its result.
abbrev pub Grows : Snowflake → ℕ × Snowflake × List ℕ → Type 0
Grows s (id, t, rest) =
    (last_id s < id) × (id ≡ last_id t) × Fits t × (epoch ≤ t.last_ms) × Advances t.last_ms rest

issue-Grows :
    (s : Snowflake) (seq now : ℕ) (clock : List ℕ)
    → Fits s
    → epoch ≤ s.last_ms
    → now < epoch + 2 ^ 41
    → Advances now clock
    → seq < 4096
    → (s.last_ms < now) ⊎ ((now ≡ s.last_ms) × (s.seq < seq))
    → Grows s (issue s seq now clock)
issue-Grows s seq now clock fits start room a small order = (
  last_id-lt s seq now fits start room small order,
  refl,
  record { worker = fits.worker; sequence = small },
  elim order [ inl later ↦ omega arith | inr (same, next) ↦ omega arith ],
  a,
)

grown : (s : Snowflake) {r q : ℕ × Snowflake × List ℕ} → Grows s r → some r ≡ some q → Grows s q
grown s {r} {q} g e = let same : r ≡ q = cc in subst (Grows s) same g

issue_at-Grows :
    (s : Snowflake) (o : Option (ℕ × List ℕ)) {q : ℕ × Snowflake × List ℕ}
    → Fits s
    → epoch ≤ s.last_ms
    → ((now : ℕ) (rest : List ℕ)
        → o ≡ some (now, rest)
        → (s.last_ms < now) × (now < epoch + 2 ^ 41) × Advances now rest)
    → issue_at s o ≡ some q
    → Grows s q
issue_at-Grows s none fits start after h = ground arith
issue_at-Grows s (some (now, rest)) fits start after h =
    let (later, room, a) = after now rest refl in
    grown s (issue-Grows s 0 now rest fits start room a (omega arith) (inl later)) h

-- One call, on a clock that does not go back: the id is larger than the last one, it is the last
-- one of the new state, and the state and the rest of the clock are again as required.
pub next_id-Grows :
    (s : Snowflake) (clock : List ℕ) {id : ℕ} {t : Snowflake} {rest : List ℕ}
    → Fits s
    → epoch ≤ s.last_ms
    → Advances s.last_ms clock
    → next_id s clock ≡ some (id, t, rest)
    → Grows s (id, t, rest)
unfolding next_id
next_id-Grows s [] fits start a h = ground arith
next_id-Grows s (now ∷ clock) {id} {t} {rest} fits start (a₀, a₁, a₂) h =
    elim (Bool-cases (nat_beq now s.last_ms)) [
      | inr other ↦
          grown s (issue-Grows s 0 now clock fits start a₁ a₂ (omega arith) (inl (ground arith)))
            (rw other at h)
      | inl same ↦ elim (Bool-cases (nat_beq ((s.seq + 1) % 4096) 0)) [
        | inr next ↦
            grown s
              (issue-Grows s ((s.seq + 1) % 4096) now clock fits start a₁ a₂ (omega arith)
                (inr (ground arith, ground arith)))
              (rw (same, next) at h)
        | inl full ↦
            issue_at-Grows s (wait s.last_ms clock) fits start
              (λ r q e. wait-eq-some now s.last_ms clock a₂ e) (rw (same, full) at h)
      ]
    ]

abbrev continue :
    (Snowflake → List ℕ → Option (List ℕ)) → Option (ℕ × Snowflake × List ℕ) → Option (List ℕ)
continue next none = none
continue next (some (id, t, rest)) = Option.map (λ ids. id ∷ ids) (next t rest)

-- n calls in a row, and their ids
unfoldable pub next_ids : ℕ → Snowflake → List ℕ → Option (List ℕ)
next_ids zero s clock = some []
next_ids (suc n) s clock = continue (next_ids n) (next_id s clock)

-- Each id is larger than the one before it, and the first is above `low`.
abbrev pub Ascends : ℕ → List ℕ → Type 0
Ascends low [] = Unit
Ascends low (id ∷ ids) = (low < id) × Ascends id ids

-- While the clock does not go back and stays below the end of its 41 bits, the ids of any number
-- of calls strictly ascend from the last one issued, for a generator whose fields fit their bits
-- and whose last time is not before the epoch.
pub next_ids-Ascends :
    (n : ℕ) (s : Snowflake) (clock : List ℕ) {ids : List ℕ}
    → Fits s
    → epoch ≤ s.last_ms
    → Advances s.last_ms clock
    → next_ids n s clock ≡ some ids
    → Ascends (last_id s) ids
unfolding next_ids
next_ids-Ascends zero s clock {ids} fits start a h =
    let none_left : [] ≡ ids = cc in subst (Ascends (last_id s)) none_left tt
next_ids-Ascends (suc n) s clock {ids} fits start a h = elim (Option-cases (next_id s clock)) [
  | inl stuck ↦ cc (ap (continue (next_ids n)) stuck)
  | inr ((id, t, rest), issued) ↦
      let (lt, same, fits', start', a') = next_id-Grows s clock fits start a issued in
      let (more, later, whole) =
        (Option.map-eq-some_iff _ _).0 (sym (ap (continue (next_ids n)) issued) ∙ h) in
      subst (Ascends (last_id s)) whole (
        lt,
        subst (λ k. Ascends k more) (sym same) (next_ids-Ascends n t rest fits' start' a' later),
      )
]

-- The readings to come pass this time.
abbrev pub Passes : ℕ → List ℕ → Type 0
Passes last [] = ⊥
Passes last (now ∷ clock) = (last < now) ⊎ Passes last clock

wait_total :
    (last : ℕ) (clock : List ℕ) → Passes last clock → (r : ℕ × List ℕ) × (wait last clock ≡ some r)
unfolding wait
wait_total last [] h = absurd h
wait_total last (now ∷ clock) h = elim (Bool-cases (leb now last)) [
  | inl early ↦
      rw early (wait_total last clock (elim h [ inl late ↦ absurd (ground arith) | inr p ↦ p ]))
  | inr late ↦ ((now, clock), rw late)
]

-- A call ends with an id once the clock passes the time of the last one.
pub next_id_total :
    (s : Snowflake) (clock : List ℕ)
    → Passes s.last_ms clock
    → (r : ℕ × Snowflake × List ℕ) × (next_id s clock ≡ some r)
unfolding next_id
next_id_total s [] h = absurd h
next_id_total s (now ∷ clock) h = elim (Bool-cases (nat_beq now s.last_ms)) [
  | inr other ↦ (issue s 0 now clock, rw other)
  | inl same ↦ elim (Bool-cases (nat_beq ((s.seq + 1) % 4096) 0)) [
    | inr next ↦ (issue s ((s.seq + 1) % 4096) now clock, rw (same, next))
    | inl full ↦
        let ((r, rest), found) =
          wait_total s.last_ms clock (elim h [ inl late ↦ absurd (ground arith) | inr p ↦ p ]) in
        (issue s 0 r rest, rw (same, full, found))
  ]
]

-- Three calls that read a time m other than the last one, another time and m again issue the same
-- id first and last.
pub next_id_repeats :
    (s : Snowflake) (m back : ℕ)
    → m ≢ s.last_ms
    → back ≢ m
    → next_ids 3 s (m ∷ back ∷ m ∷ [])
      ≡ some (
          compose (timestamp m) s.worker_id 0
          ∷ compose (timestamp back) s.worker_id 0
          ∷ compose (timestamp m) s.worker_id 0
          ∷ [])
unfolding next_ids next_id
next_id_repeats s m back h k = ground arith
