-- ===== src/Client/Connect/Table.antt =====
-- client_conn_options.go, `connect`: the entry of `connectedServers` for a server, along the attempts to
-- connect to it. An attempt starts the next one before it returns, and deletes the entry when it returns.
use libmqtt.Prelude.{
  ℕ, suc, ◌+◌, ◌≤◌, ◌≡◌, refl, arith, Bool, true, false, List, [], ◌∷◌, ◌==◌, if◌then◌else◌, Option,
  none, some, inl, inr, Bool-cases, ==_refl, length, ap, sym, ◌∙◌,
}
use mathlib.Core.Path.{subst}

-- Where an attempt is: not started, before its entry is stored, after that, behind its last wait, or
-- returned.
pub data Phase : Type 0 where
  idle dialing up leaving gone : Phase

-- The attempts by number, the number of the next one, and the attempt whose connection is the entry.
pub record Attempts : Type 0 where
  pub phase_of : ℕ → Phase
  pub next : ℕ
  pub entry : Option ℕ

abbrev pub set_phase : ℕ → Phase → (ℕ → Phase) → ℕ → Phase
set_phase i p f j = if i == j then p else f j

-- What happens to an attempt: its connection is stored; it ends without or behind that, with another
-- attempt to follow or not; it returns.
pub data Event : Type 0 where
  stores : ℕ → Event
  fails ends : ℕ → Bool → Event
  returns : ℕ → Event

-- The next attempt, as another worker, or none.
abbrev pub follow : Bool → Attempts → Attempts
follow false s = s
follow true s = record s { phase_of = set_phase s.next dialing s.phase_of; next = suc s.next }

abbrev pub move : ℕ → Phase → Attempts → Attempts
move i p s = record s { phase_of = set_phase i p s.phase_of }

-- An event that does not fit the phase of the attempt does not happen.
abbrev pub happen : Event → Phase → Attempts → Attempts
happen (stores i) dialing s = record (move i up s) { entry = some i }
happen (fails i again) dialing s = follow again (move i leaving s)
happen (ends i again) up s = follow again (move i leaving s)
happen (returns i) leaving s = record (move i gone s) { entry = none }
happen _ _ s = s

abbrev pub attempt_of : Event → ℕ
attempt_of (stores i) = i
attempt_of (fails i again) = i
attempt_of (ends i again) = i
attempt_of (returns i) = i

unfoldable pub step : Event → Attempts → Attempts
step e s = happen e (s.phase_of (attempt_of e)) s

unfoldable pub steps : List Event → Attempts → Attempts
steps [] s = s
steps (e ∷ es) s = steps es (step e s)

-- The first attempt has been started.
abbrev pub at_start : Attempts
at_start = record { phase_of = set_phase 0 dialing (λ j. idle); next = 1; entry = none }

-- An attempt that has stored its connection and has not returned.
abbrev pub IsLive : Phase → Type 0
IsLive up = Unit
IsLive leaving = Unit
IsLive _ = ⊥

abbrev pub EntryIsLive : Option ℕ → (ℕ → Phase) → Type 0
EntryIsLive none f = Unit
EntryIsLive (some i) f = IsLive (f i)

abbrev Unstarted : ℕ → (ℕ → Phase) → Type 0
Unstarted n f = (j : ℕ) → n ≤ j → f j ≡ idle

record IsSound (s : Attempts) : Type 0 where
  unstarted : Unstarted s.next s.phase_of
  live : EntryIsLive s.entry s.phase_of

-- An attempt that has been started moves on.
set_phase-Unstarted :
    (i n : ℕ) (p : Phase) (f : ℕ → Phase)
    → (f i ≡ idle → ⊥)
    → Unstarted n f
    → Unstarted n (set_phase i p f)
set_phase-Unstarted i n p f h u j l = elim (Bool-cases (i == j)) [
  | inl e ↦ let same : i ≡ j = ground (arith, e) in absurd (h (ap f same ∙ u j l))
  | inr e ↦ rw e (u j l)
]

set_phase-EntryIsLive :
    (i : ℕ) (p : Phase) (o : Option ℕ) (f : ℕ → Phase)
    → IsLive p
    → EntryIsLive o f
    → EntryIsLive o (set_phase i p f)
set_phase-EntryIsLive i p none f h k = tt
set_phase-EntryIsLive i p (some j) f h k = elim (Bool-cases (i == j)) [
  | inl e ↦ rw e h
  | inr e ↦ rw e k
]

start-EntryIsLive :
    (n : ℕ) (o : Option ℕ) (f : ℕ → Phase)
    → f n ≡ idle
    → EntryIsLive o f
    → EntryIsLive o (set_phase n dialing f)
start-EntryIsLive n none f h k = tt
start-EntryIsLive n (some j) f h k = elim (Bool-cases (n == j)) [
  | inl e ↦
      let same : n ≡ j = ground (arith, e) in
      let none_live : f j ≡ idle = ap f (sym same) ∙ h in absurd (subst IsLive none_live k)
  | inr e ↦ rw e k
]

follow-IsSound : (again : Bool) (s : Attempts) → IsSound s → IsSound (follow again s)
follow-IsSound false s h = h
follow-IsSound true s h = record {
  unstarted = λ j l. elim (Bool-cases (s.next == j)) [
    | inl e ↦ absurd (ground (arith, e, l))
    | inr e ↦ rw e (h.unstarted j (omega arith))
  ];
  live = start-EntryIsLive s.next s.entry s.phase_of (h.unstarted s.next (omega arith)) h.live;
}

happen-IsSound :
    (e : Event) (p : Phase) (s : Attempts)
    → s.phase_of (attempt_of e) ≡ p
    → IsSound s
    → IsSound (happen e p s)
happen-IsSound (stores i) dialing s q h = record {
  unstarted = set_phase-Unstarted i s.next up s.phase_of (λ z. cc) h.unstarted;
  live = rw (==_refl i) tt;
}
happen-IsSound (fails i again) dialing s q h = follow-IsSound again (move i leaving s) (record {
  unstarted = set_phase-Unstarted i s.next leaving s.phase_of (λ z. cc) h.unstarted;
  live = set_phase-EntryIsLive i leaving s.entry s.phase_of tt h.live;
})
happen-IsSound (ends i again) up s q h = follow-IsSound again (move i leaving s) (record {
  unstarted = set_phase-Unstarted i s.next leaving s.phase_of (λ z. cc) h.unstarted;
  live = set_phase-EntryIsLive i leaving s.entry s.phase_of tt h.live;
})
happen-IsSound (returns i) leaving s q h = record {
  unstarted = set_phase-Unstarted i s.next gone s.phase_of (λ z. cc) h.unstarted;
  live = tt;
}
happen-IsSound _ _ s q h = h

at_start-IsSound : IsSound at_start
at_start-IsSound = record { unstarted = λ j l. ground (arith, l); live = tt }

steps-IsSound : (es : List Event) (s : Attempts) → IsSound s → IsSound (steps es s)
unfolding steps step
steps-IsSound [] s h = h
steps-IsSound (e ∷ es) s h =
    steps-IsSound es (step e s) (happen-IsSound e (s.phase_of (attempt_of e)) s refl h)

-- However the attempts for a server overlap, the entry for it is never an attempt that has not stored
-- its connection or that has returned.
pub steps-EntryIsLive :
    (es : List Event) → EntryIsLive (steps es at_start).entry (steps es at_start).phase_of
steps-EntryIsLive es = (steps-IsSound es at_start at_start-IsSound).live

-- The events of attempts that follow each other, each of which returns before anything happens to the
-- next: whether each stores a connection before it ends. The last one stores its own.
abbrev pub in_turn : ℕ → List Bool → List Event
in_turn i [] = stores i ∷ []
in_turn i (true ∷ bs) = stores i ∷ ends i true ∷ returns i ∷ in_turn (suc i) bs
in_turn i (false ∷ bs) = fails i true ∷ returns i ∷ in_turn (suc i) bs

-- An event that fits the phase of its attempt.
step_fits :
    (e : Event) (p : Phase) (s : Attempts) → s.phase_of (attempt_of e) ≡ p → step e s ≡ happen e p s
unfolding step
step_fits e p s h = ap (λ q. happen e q s) h

in_turn-entry :
    (i : ℕ) (bs : List Bool) (s : Attempts)
    → s.phase_of i ≡ dialing
    → s.next ≡ suc i
    → (steps (in_turn i bs) s).entry ≡ some (i + length bs)
unfolding steps
in_turn-entry i [] s h n =
    ap (λ z. z.entry) (step_fits (stores i) dialing s h) ∙ ap some (omega arith)
in_turn-entry i (true ∷ bs) s h n =
    let s1 = happen (stores i) dialing s in
    let s2 = happen (ends i true) up s1 in
    let s3 = happen (returns i) leaving s2 in
    let next_dialing : s3.phase_of (suc i) ≡ dialing = ground (arith, n) in
    let is_leaving : s2.phase_of i ≡ leaving = ground (arith, n) in
    let is_up : s1.phase_of i ≡ up = ground arith in
    let stored : step (stores i) s ≡ s1 = step_fits (stores i) dialing s h in
    let ended : step (ends i true) s1 ≡ s2 = step_fits (ends i true) up s1 is_up in
    let all : step (returns i) (step (ends i true) (step (stores i) s)) ≡ s3 =
      ap (λ z. step (returns i) (step (ends i true) z)) stored
      ∙ (ap (step (returns i)) ended ∙ step_fits (returns i) leaving s2 is_leaving) in
    ap (λ z. (steps (in_turn (suc i) bs) z).entry) all
    ∙ (in_turn-entry (suc i) bs s3 next_dialing (ap suc n) ∙ ap some (omega arith))
in_turn-entry i (false ∷ bs) s h n =
    let s1 = happen (fails i true) dialing s in
    let s2 = happen (returns i) leaving s1 in
    let next_dialing : s2.phase_of (suc i) ≡ dialing = ground (arith, n) in
    let is_leaving : s1.phase_of i ≡ leaving = ground (arith, n) in
    let both : step (returns i) (step (fails i true) s) ≡ s2 =
      ap (step (returns i)) (step_fits (fails i true) dialing s h)
      ∙ step_fits (returns i) leaving s1 is_leaving in
    ap (λ z. (steps (in_turn (suc i) bs) z).entry) both
    ∙ (in_turn-entry (suc i) bs s2 next_dialing (ap suc n) ∙ ap some (omega arith))

-- If each attempt returns before anything happens to the next one, and another follows each, the entry
-- is the last one, once it has stored its connection.
pub steps-in_turn : (bs : List Bool) → (steps (in_turn 0 bs) at_start).entry ≡ some (length bs)
steps-in_turn bs = in_turn-entry 0 bs at_start refl refl ∙ ap some (omega arith)
