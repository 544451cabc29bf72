-- ===== src/Persist/Mem/Replay.antt =====
-- persist.go, `memPersist`: what a key gives after a run of calls, by the calls alone.
use libmqtt.Prelude.{
  ◌≡◌, refl, arith, Bool, true, false, List, [], ◌∷◌, if◌then◌else◌, Option, none, some, bytes_eq,
  bytes_eq_sound, ltb, ◌&&◌, ◌∙◌,
}
use libmqtt.Util.Bytes.{Bytes}
use libmqtt.Persist.Strategy.{PersistStrategy, find}
use libmqtt.Persist.Mem.{
  MemPersist, new_mem_persist, is_full, load_or_store, store, load, delete, destroy,
}
use libmqtt.Persist.Mem.Laws.{kept, load-store, load-delete}

-- A call that changes the store.
pub data Call (P : Type 0) : Type 0 where
  storing : Bytes → Option P → Call P
  deleting : Bytes → Call P
  destroying : Call P

-- No store is refused.
abbrev pub KeepsAll : PersistStrategy → Type 0
KeepsAll s = (ltb 0 s.max_count && s.drop_on_exceed) ≡ false

module _ {P : Type 0} where
  unfoldable pub perform : Call P → MemPersist P → MemPersist P
  perform (storing key p) m = (store key p m).0
  perform (deleting key) m = (delete key m).0
  perform destroying m = (destroy m).0

  -- The calls with the latest first.
  unfoldable pub perform_all : List (Call P) → MemPersist P → MemPersist P
  perform_all [] m = m
  perform_all (c ∷ earlier) m = perform c (perform_all earlier m)

  -- What the latest call that is about the key says. One that stores again where there is a packet
  -- counts if the strategy replaces.
  unfoldable pub said : Bool → Bytes → List (Call P) → Option P × Bool
  said replaces j [] = (none, false)
  said replaces j (storing key p ∷ earlier) =
      let before = said replaces j earlier in
      if bytes_eq key j then (kept replaces before p, true) else before
  said replaces j (deleting key ∷ earlier) =
      let before = said replaces j earlier in if bytes_eq key j then (none, false) else before
  said replaces j (destroying ∷ earlier) = (none, false)

  perform_all-strategy :
      (calls : List (Call P)) (m : MemPersist P) → (perform_all calls m).strategy ≡ m.strategy
  unfolding perform_all perform store delete destroy load_or_store
  perform_all-strategy [] m = refl
  perform_all-strategy (storing key p ∷ earlier) m = ground (arith, perform_all-strategy earlier m)
  perform_all-strategy (deleting key ∷ earlier) m = perform_all-strategy earlier m
  perform_all-strategy (destroying ∷ earlier) m = perform_all-strategy earlier m

  not-is_full : (m : MemPersist P) → KeepsAll m.strategy → is_full m ≡ false
  unfolding is_full
  not-is_full m h = ground arith

  -- After any run of calls on a new store whose strategy never refuses, every key gives what the latest
  -- call about it says.
  pub load-perform_all :
      (s : PersistStrategy) (calls : List (Call P)) (j : Bytes)
      → KeepsAll s
      → load j (perform_all calls (new_mem_persist (some s))) ≡ said s.duplicate_replace j calls
  unfolding perform_all perform said load new_mem_persist find destroy
  load-perform_all s [] j h = refl
  load-perform_all s (storing key p ∷ earlier) j h =
      let m = perform_all earlier (new_mem_persist (some s)) in
      let same = perform_all-strategy earlier (new_mem_persist (some s)) in
      (load-store key j p m (not-is_full m (rw same h))).1
      ∙ rw (same, load-perform_all s earlier key h, load-perform_all s earlier j h)
          (ground (arith, bytes_eq_sound key j))
  load-perform_all s (deleting key ∷ earlier) j h =
      load-delete key j _ ∙ rw (load-perform_all s earlier j h) refl
  load-perform_all s (destroying ∷ earlier) j h = refl
