-- ===== src/Journal/Sealed.antt =====
-- What is appended to the store of src/spy_der/journal/store.py verifies.
use spy_der.Prelude.{
  ℕ, suc, ◌+◌, String, ◌≡◌, refl, subst, ◌↔◌, ap, Bool, true, false, Option, none, some, List, [],
  ◌∷◌, ◌++◌, if◌then◌else◌, length, length-append, arith,
}
use spy_der.Prelude.Text.{str_eq_iff}
use spy_der.Journal.Chain.{
  JournalEvent, content_of, Hashes, compute_event_hash, hash_eq, fits, verify_from, verify_chain,
}
use spy_der.Journal.Store.{InMemoryJournalStore, last_hash, staged, finalize, append, append_all}

-- The hash that the next event has to name, after a stretch of the chain.
abbrev pub tip : Hashes → Option String → List JournalEvent → Option String
tip hashes prev [] = prev
tip hashes prev (e ∷ es) = tip hashes (some (compute_event_hash hashes e)) es

abbrev pub Carries : Hashes → List JournalEvent → Type 0
Carries hashes [] = Unit {0}
Carries hashes (e ∷ es) = (e.event_hash ≡ compute_event_hash hashes e) × Carries hashes es

hash_eq_refl : (o : Option String) → hash_eq o o ≡ true
hash_eq_refl none = refl
hash_eq_refl (some s) = (str_eq_iff s s).1 refl

pub both_tests : (b r : Bool) → ((if b then r else false) ≡ true) ↔ ((b ≡ true) × (r ≡ true))
both_tests true r = (λ h. (refl, h), λ h. h.1)
both_tests false r = (λ h. cc, λ h. cc)

Carries-append :
    (hashes : Hashes) (es : List JournalEvent) (f : JournalEvent)
    → Carries hashes es
    → f.event_hash ≡ compute_event_hash hashes f
    → Carries hashes (es ++ f ∷ [])
Carries-append hashes [] f c h = (h, tt)
Carries-append hashes (e ∷ es) f c h = (c.0, Carries-append hashes es f c.1 h)

module _ (hashes : Hashes) where
  last_hash-tip :
      (e : JournalEvent) (es : List JournalEvent)
      → Carries hashes (e ∷ es)
      → last_hash (e ∷ es) ≡ tip hashes none (e ∷ es)
  last_hash-tip e [] c = ap some c.0
  last_hash-tip e (f ∷ es) c = last_hash-tip f es c.1

  verify_from-append :
      (prev : Option String) (n : ℕ) (es : List JournalEvent) (f : JournalEvent)
      → verify_from hashes prev n es ≡ true
      → fits hashes (tip hashes prev es) (n + length es) f ≡ true
      → verify_from hashes prev n (es ++ f ∷ []) ≡ true
  unfolding verify_from
  verify_from-append prev n [] f v h =
      both.1 (subst (λ m. fits hashes prev m f ≡ true) (omega arith) h, refl)
    where
      both :
          ((if fits hashes prev n f then true else false) ≡ true)
          ↔ ((fits hashes prev n f ≡ true) × (true ≡ true))
      both = both_tests (fits hashes prev n f) true
  verify_from-append prev n (e ∷ es) f v h =
      let next : Option String = some (compute_event_hash hashes e) in
      let known = (both_tests (fits hashes prev n e) (verify_from hashes next (suc n) es)).0 v in
      let later : verify_from hashes next (suc n) (es ++ f ∷ []) ≡ true =
        verify_from-append next (suc n) es f known.1
          (subst (λ m. fits hashes (tip hashes next es) m f ≡ true) (omega arith) h) in
      (both_tests (fits hashes prev n e) (verify_from hashes next (suc n) (es ++ f ∷ []))).1
        (known.0, later)

  finalize-fits :
      (e : JournalEvent) (n : ℕ) (prev : Option String)
      → fits hashes prev n (finalize hashes e n prev) ≡ true
  unfolding fits finalize compute_event_hash
  finalize-fits e n prev =
      let d : String = hashes.content_hash (content_of (staged hashes e n prev)) in
      ground (arith, hash_eq_refl prev, str_eq_iff d d)

  finalize-hash :
      (e : JournalEvent) (n : ℕ) (prev : Option String)
      → (finalize hashes e n prev).event_hash ≡ compute_event_hash hashes (finalize hashes e n prev)
  unfolding finalize compute_event_hash
  finalize-hash e n prev = refl

  -- A journal that verifies, each of whose events carries its own hash.
  abbrev pub IsSealed : InMemoryJournalStore → Type 0
  IsSealed s = (verify_chain hashes s.events ≡ true) × Carries hashes s.events

  last_hash-tip_any :
      (es : List JournalEvent) → Carries hashes es → last_hash es ≡ tip hashes none es
  last_hash-tip_any [] c = refl
  last_hash-tip_any (e ∷ es) c = last_hash-tip e es c

  pub append-IsSealed :
      (e : JournalEvent) (s : InMemoryJournalStore) → IsSealed s → IsSealed (append hashes e s).1
  unfolding append verify_chain
  append-IsSealed e s h =
      let prev : Option String = last_hash s.events in
      let n : ℕ = suc (length s.events) in
      let f : JournalEvent = finalize hashes e n prev in
      (
        verify_from-append none 1 s.events f h.0 (
            subst (λ p. fits hashes p (1 + length s.events) f ≡ true)
              (last_hash-tip_any s.events h.1)
              (subst (λ m. fits hashes prev m f ≡ true) (omega arith) (finalize-fits e n prev))),
        Carries-append hashes s.events f h.1 (finalize-hash e n prev),
      )

  append_all-IsSealed :
      (es : List JournalEvent) (s : InMemoryJournalStore)
      → IsSealed s
      → IsSealed (append_all hashes es s)
  unfolding append_all
  append_all-IsSealed [] s h = h
  append_all-IsSealed (e ∷ es) s h =
      append_all-IsSealed es (append hashes e s).1 (append-IsSealed e s h)

  length-append_all :
      (es : List JournalEvent) (s : InMemoryJournalStore)
      → length (append_all hashes es s).events ≡ length s.events + length es
  unfolding append_all append
  length-append_all [] s = omega arith
  length-append_all (e ∷ es) s =
      let f : JournalEvent = finalize hashes e (suc (length s.events)) (last_hash s.events) in
      omega (arith, length-append_all es (append hashes e s).1, length-append s.events (f ∷ []))

  verify_chain-nil : verify_chain hashes [] ≡ true
  unfolding verify_chain verify_from
  verify_chain-nil = refl

  -- Whatever events are appended to an empty store, one after the other, the journal has one event for
  -- each and verifies, and its last hash is the one that the verification arrives at.
  pub append_all-verify_chain :
      (es : List JournalEvent)
      → let s = append_all hashes es (record { events = [] }) in
        (verify_chain hashes s.events ≡ true)
        × ((length s.events ≡ length es) × (last_hash s.events ≡ tip hashes none s.events))
  append_all-verify_chain es =
      let sealed = append_all-IsSealed es (record { events = [] }) (verify_chain-nil, tt) in
      (
        sealed.0,
        (
          omega (arith, length-append_all es (record { events = [] })),
          last_hash-tip_any (append_all hashes es (record { events = [] })).events sealed.1,
        ),
      )
