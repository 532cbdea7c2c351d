-- ===== src/Sweeper/Liveness.antt =====
-- The expired holds are released.
use event_booking_ticketing.Session.{Result, Both, Session}
use event_booking_ticketing.Payments.Repeats.{first-update_self}
use event_booking_ticketing.Sweeper.Frame.{first-update_other, Holds}
use event_booking_ticketing.Payments.Changes.{
  set_unit_statuses, set_booking_status, release_booking, set_payment_status,
}
use event_booking_ticketing.Sweeper.{
  candidate_ids, released_expired_holds, sweep_booking, sweep_one, sweep_payment, sweep_all,
  sweep_caught, booking_id, is_candidate,
}
use event_booking_ticketing.Sweeper.Progress.{
  sweep_payment-IsSwept, sweep_caught-Both, set_status-kept, set_status-free, is_paid-set_canceled,
  KeptBy, AreFree, is_paid, CancelsAll,
}
use event_booking_ticketing.Model.{pays_for, cancelled, Db, has_booking_id, Booking}
use event_booking_ticketing.Gateway.{Stripe}
use event_booking_ticketing.Env.{Env}
use event_booking_ticketing.Common.{
  ◌==◌, Bool-cases, ap, inr, inl, Option, first-true, ==→eq, refl, [], ◌∙◌, sym, arith, ◌∷◌, select,
  subst, ◌≢◌, false, map, mem, true, some, ◌≡◌, first, List, ℕ,
}

candidate-mem :
    (e : Env) (k : ℕ) (b : Booking) (bs : List Booking)
    → first (has_booking_id k) bs ≡ some b
    → is_candidate e b ≡ true
    → mem k (map booking_id (select (is_candidate e) bs)) ≡ true
candidate-mem e k b [] h due = cc
candidate-mem e k b (x ∷ bs) h due = ground (arith, candidate-mem e k b bs)

module _ (e : Env) (stripe : Stripe) (cancels : CancelsAll stripe) (k : ℕ) (b : Booking)
    (due : is_candidate e b ≡ true) where
  -- Before the sweep comes to the booking, and after.
  abbrev IsWaiting : Db → Type 0
  IsWaiting db = Holds k b db × (is_paid k db ≡ false)

  abbrev pub IsReleased : Db → Type 0
  IsReleased db = Holds k (record b { status = cancelled }) db × AreFree b.assigned_units db

  IsWaiting-KeptBy : (x : Booking) → k ≢ x.id → KeptBy e stripe cancels IsWaiting x
  unfolding set_payment_status release_booking set_booking_status set_unit_statuses
  IsWaiting-KeptBy x ne = (
    λ n db h. (h.0, is_paid-set_canceled k n db h.1),
    λ db h. (
      first-update_other k x.id (λ y. record y { status = cancelled }) db.bookings (λ y. refl) ne
          ∙ h.0,
      h.1,
    ),
  )

  IsReleased-KeptBy : (x : Booking) → k ≢ x.id → KeptBy e stripe cancels IsReleased x
  unfolding set_payment_status release_booking set_booking_status set_unit_statuses
  IsReleased-KeptBy x ne = (
    λ n db h. (h.0, h.1),
    λ db h. (
      first-update_other k x.id (λ y. record y { status = cancelled }) db.bookings (λ y. refl) ne
          ∙ h.0,
      set_status-kept b.assigned_units x.assigned_units db.items h.1,
    ),
  )

  release-IsReleased : (db : Db) → Holds k b db → IsReleased (release_booking b db)
  unfolding release_booking set_booking_status set_unit_statuses
  release-IsReleased db h = (
    first-update_self k (λ y. record y { status = cancelled }) db.bookings b refl h,
    set_status-free b.assigned_units db.items,
  )

  swept_now :
      (affected : List ℕ) (s : Session)
      → Both IsWaiting s
      → Both IsReleased (sweep_caught e stripe k (affected, s)).1
  unfolding sweep_caught
  swept_now affected s h =
      let named : b.id ≡ k =
        ==→eq b.id k (first-true (has_booking_id k) s.db.bookings b h.seen.0) in
      let unpaid : is_paid b.id s.db ≡ false =
        subst (λ n. is_paid n s.db ≡ false) (sym named) h.seen.1 in
      let m : Result (Option ℕ) × Session =
        sweep_payment e stripe b (first (pays_for b.id) s.db.payments) s in
      let after : Both IsReleased m.1 = elim (sweep_payment-IsSwept e stripe cancels b s) [
        | inl (paid, db, saved) ↦ cc
        | inr (db1, from, db, saved) ↦
            let same : db1.bookings ≡ s.db.bookings = elim from [
              | inl q ↦ ap (λ (d : Db). d.bookings) q
              | inr (n, q) ↦ ap (λ (d : Db). d.bookings) q ∙ (unfold set_payment_status in refl)
            ] in
            let held : Holds k b db1 = ap (λ bs. first (has_booking_id k) bs) same ∙ h.seen.0 in
            let done : IsReleased (release_booking b db1) = release-IsReleased db1 held in
            record {
              seen = subst IsReleased (sym db) done;
              kept = subst IsReleased (sym saved) done;
            }
      ] in
      let go : sweep_one e stripe k s ≡ m =
        unfold sweep_one sweep_booking in rw (h.seen.0, due) refl in
      let one : Both IsReleased (sweep_one e stripe k s).1 =
        subst (λ (x : Result (Option ℕ) × Session). Both IsReleased x.1) (sym go) after in
      ground (arith, one)

  released_ne :
      (n : ℕ) (x : Booking) (db : Db)
      → Holds k (record b { status = cancelled }) db
      → first (has_booking_id n) db.bookings ≡ some x
      → is_candidate e x ≡ true
      → k ≢ x.id
  released_ne n x db h found due' same =
      let at : x.id ≡ n = ==→eq x.id n (first-true (has_booking_id n) db.bookings x found) in
      let both : some x ≡ some (record b { status = cancelled }) =
        sym found
        ∙ subst (λ i. first (has_booking_id i) db.bookings ≡ some (record b { status = cancelled }))
            (same ∙ at) h in
      ground arith

  swept_later :
      (ks affected : List ℕ) (s : Session)
      → Both IsReleased s
      → Both IsReleased (sweep_all e stripe ks (affected, s)).1
  unfolding sweep_all
  swept_later [] affected s h = h
  swept_later (n ∷ ks) affected s h =
      let acc : List ℕ × Session = sweep_caught e stripe n (affected, s) in
      swept_later ks acc.0 acc.1 (
        sweep_caught-Both e stripe cancels IsReleased n affected s
          (λ x found due'. IsReleased-KeptBy x (released_ne n x s.db h.seen.0 found due')) h)

  swept_in_turn :
      (ks affected : List ℕ) (s : Session)
      → mem k ks ≡ true
      → Both IsWaiting s
      → Both IsReleased (sweep_all e stripe ks (affected, s)).1
  unfolding sweep_all
  swept_in_turn [] affected s m h = cc
  swept_in_turn (n ∷ ks) affected s m h =
      let acc : List ℕ × Session = sweep_caught e stripe n (affected, s) in
      elim (Bool-cases (n == k)) [
        | inl q ↦ swept_later ks acc.0 acc.1 (
            subst (λ i. Both IsReleased (sweep_caught e stripe i (affected, s)).1)
              (sym (==→eq n k q)) (swept_now affected s h))
        | inr q ↦ swept_in_turn ks acc.0 acc.1 (ground arith) (
            sweep_caught-Both e stripe cancels IsWaiting n affected s
              (λ x found due'. IsWaiting-KeptBy x (λ same.
                let at : x.id ≡ n =
                  ==→eq x.id n (first-true (has_booking_id n) s.db.bookings x found) in
                ground arith))
              h)
      ]

  -- When Stripe cancels every intent that it is asked to cancel, a sweep releases every booking that
  -- is PENDING, older than the hold, and not paid: afterwards it is CANCELLED and its seats are
  -- AVAILABLE, in the committed database too, whatever else is swept.
  pub released_expired_holds_live :
      (s : Session)
      → Both (Holds k b) s
      → is_paid k s.db ≡ false
      → is_paid k s.saved ≡ false
      → Both IsReleased (released_expired_holds e stripe s)
  unfolding released_expired_holds
  released_expired_holds_live s held unpaid unpaid' =
      let swept : Both IsReleased (sweep_all e stripe (candidate_ids e s.db) ([], s)).1 =
        swept_in_turn (candidate_ids e s.db) [] s (candidate-mem e k b s.db.bookings held.seen due)
          (record { seen = (held.seen, unpaid); kept = (held.kept, unpaid') }) in
      record { seen = swept.seen; kept = swept.kept }
