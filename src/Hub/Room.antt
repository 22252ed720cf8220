-- ===== src/Hub/Room.antt =====
-- A client whose queue has room for what is published: it stays subscribed and hears it in order.
use aiot_powerguard.Prelude.{
  ℕ, ◌+◌, ◌≤◌, ◌≡◌, refl, sym, Bool, false, List, [], ◌∷◌, ◌++◌, ◌==◌, nat_eq, list_eq,
  if◌then◌else◌, length, contains, keep, arith, Option-cases, Bool-cases, inl, inr, ◌∙◌, ap,
  length-append, some, append_nil, append_assoc, ◌⊎◌,
}
use aiot_powerguard.Prelude.Dict.{Dict, lookup, lookup-insert, lookup-erase}
use aiot_powerguard.Text.{Text}
use aiot_powerguard.Hub.{
  Event, Hub, ids_of, put_ids, discard, is_full, deliver, deliver_all, dispatch,
}
use aiot_powerguard.Hub.Registry.{Distinct, lookup-IsRegistry}
use aiot_powerguard.Hub.Accounts.{IsValid, dispatch-IsValid}
use aiot_powerguard.Hub.Queues.{deliver-objects, dispatch-objects, dispatch-size}

put_ids-ids_of :
    (k d : Text) (ids : List ℕ) (m : Dict Text (List ℕ))
    → ids_of (lookup d (put_ids k ids m)) ≡ (if d == k then ids else ids_of (lookup d m))
put_ids-ids_of k d [] m = ground (arith, lookup-erase d k m)
put_ids-ids_of k d (i ∷ ids) m = ground (arith, lookup-insert d k (i ∷ ids) m)

put_ids-contains :
    (k d : Text) (ids live : List ℕ) (m : Dict Text (List ℕ)) (j : ℕ)
    → lookup k m ≡ some ids
    → contains live j ≡ contains ids j
    → contains (ids_of (lookup d (put_ids k live m))) j ≡ contains (ids_of (lookup d m)) j
put_ids-contains k d ids live m j found h =
    ap (λ x. contains x j) (put_ids-ids_of k d live m) ∙ (elim (Bool-cases (d == k)) [
      | inl e ↦ let same : d ≡ k = ground (arith, e) in rw (e, same, found) h
      | inr e ↦ rw e refl
    ])

discard-contains :
    (i j : ℕ) (is : List ℕ) → (j == i) ≡ false → contains (discard i is) j ≡ contains is j
discard-contains i j [] h = refl
discard-contains i j (k ∷ is) h = ground (arith, discard-contains i j is h)

module _ {F : Type 0} where
  -- whether the subscription hears the events of a device
  abbrev pub hears : Hub F → ℕ → Text → Bool
  hears h j d = contains (ids_of (lookup d h.subscriptions)) j

  deliver-live :
      (e : Event F) (i j : ℕ) (h : Hub F) (live : List ℕ)
      → is_full h.queue_size (h.objects j).queue ≡ false
      → contains (deliver e i (h, live)).1 j ≡ contains live j
  unfolding deliver
  deliver-live e i j h live free = elim (Bool-cases (j == i)) [
    | inl e ↦ ground (arith, e, free)
    | inr e ↦ ground (arith, discard-contains i j live e)
  ]

  deliver_all-others :
      (e : Event F) (is : List ℕ) (j : ℕ) (h : Hub F) (live : List ℕ)
      → contains is j ≡ false
      → contains (deliver_all e is (h, live)).1 j ≡ contains live j
  unfolding deliver_all deliver
  deliver_all-others e [] j h live k = refl
  deliver_all-others e (i ∷ is) j h live k =
      let (g, left) = deliver e i (h, live) in
      ground (arith, deliver_all-others e is j g left, discard-contains i j live)

  deliver_all-live :
      (e : Event F) (is : List ℕ) (j : ℕ) (h : Hub F) (live : List ℕ)
      → Distinct is
      → is_full h.queue_size (h.objects j).queue ≡ false
      → contains (deliver_all e is (h, live)).1 j ≡ contains live j
  unfolding deliver_all
  deliver_all-live e [] j h live d free = refl
  deliver_all-live e (i ∷ is) j h live d free =
      let (g, left) = deliver e i (h, live) in
      let one = deliver-live e i j h live free in
      elim (Bool-cases (j == i)) [
        | inl k ↦
            deliver_all-others e is j (deliver e i (h, live)).0 (deliver e i (h, live)).1
              (ground (arith, k, d.0))
            ∙ one
        | inr k ↦
            deliver_all-live e is j (deliver e i (h, live)).0 (deliver e i (h, live)).1 d.1
              (ground (arith, k, free, deliver-objects e i j h live))
            ∙ one
      ]

  deliver_all-subscriptions :
      (e : Event F) (is : List ℕ) (h : Hub F) (live : List ℕ)
      → (deliver_all e is (h, live)).0.subscriptions ≡ h.subscriptions
  unfolding deliver_all deliver
  deliver_all-subscriptions e [] h live = refl
  deliver_all-subscriptions e (i ∷ is) h live =
      let (g, left) = deliver e i (h, live) in ground (arith, deliver_all-subscriptions e is g left)

  -- the subscriptions after the publication, for a client with room
  pub dispatch-hears :
      (e : Event F) (h : Hub F) (j : ℕ) (d : Text)
      → IsValid h
      → is_full h.queue_size (h.objects j).queue ≡ false
      → hears (dispatch e h) j d ≡ hears h j d
  unfolding dispatch
  dispatch-hears e h j d v free = elim (Option-cases (lookup e.device_id h.subscriptions)) [
    | inl absent ↦ rw (absent, dispatch) refl
    | inr ([], found) ↦ rw (found, dispatch) refl
    | inr (i ∷ is, found) ↦
        let good = lookup-IsRegistry e.device_id (i ∷ is) h.subscriptions v.registry found in
        let b = record h {
          counters = record h.counters { events_published = h.counters.events_published + 1 };
        } in
        let same = deliver_all-live e (i ∷ is) j b (i ∷ is) good.1 free in
        let subscriptions = deliver_all-subscriptions e (i ∷ is) b (i ∷ is) in
        let live = (deliver_all e (i ∷ is) (b, i ∷ is)).1 in
        rw (found, dispatch)
          (ap (λ m. contains (ids_of (lookup d (put_ids e.device_id live m))) j) subscriptions
            ∙ put_ids-contains e.device_id d (i ∷ is) live h.subscriptions j found same)
  ]

  -- the events that the subscription hears
  abbrev pub heard : Hub F → ℕ → List (Event F) → List (Event F)
  heard h j es = keep (λ e. hears h j e.device_id) es

  pub dispatch-queue :
      (e : Event F) (h : Hub F) (j : ℕ)
      → IsValid h
      → is_full h.queue_size (h.objects j).queue ≡ false
      → ((dispatch e h).objects j).queue ≡ (h.objects j).queue ++ heard h j (e ∷ [])
  dispatch-queue e h j v free = elim (Bool-cases (hears h j e.device_id)) [
    | inl k ↦ ap (λ s. s.queue) (dispatch-objects e h j v) ∙ rw (k, free) refl
    | inr k ↦
        ap (λ s. s.queue) (dispatch-objects e h j v) ∙ rw k (sym (append_nil (h.objects j).queue))
  ]

  -- a queue without a limit, or one that takes two more events
  abbrev pub HasRoom : Hub F → ℕ → Type 0
  HasRoom h j = (h.queue_size ≡ 0) ⊎ (length (h.objects j).queue + 2 ≤ h.queue_size)

  HasRoom-free :
      (size : ℕ) (q : List (Event F)) → (size ≡ 0) ⊎ (length q + 1 ≤ size) → is_full size q ≡ false
  HasRoom-free size q (inl k) = ground (arith, k)
  HasRoom-free size q (inr k) = ground (arith, k)

  pub room_now :
      (h : Hub F) (j : ℕ) → HasRoom h j → is_full h.queue_size (h.objects j).queue ≡ false
  room_now h j (inl k) = HasRoom-free h.queue_size (h.objects j).queue (inl k)
  room_now h j (inr k) = HasRoom-free h.queue_size (h.objects j).queue (inr (omega (arith, k)))

  one_more :
      (e : Event F) (h : Hub F) (j : ℕ)
      → length ((h.objects j).queue ++ heard h j (e ∷ [])) ≤ length (h.objects j).queue + 1
  one_more e h j = ground (arith, length-append (h.objects j).queue (heard h j (e ∷ [])))

  room_left :
      (e : Event F) (h : Hub F) (j : ℕ)
      → IsValid h
      → HasRoom h j
      → is_full (dispatch e h).queue_size ((dispatch e h).objects j).queue ≡ false
  room_left e h j v room =
      let longer = one_more e h j in
      let q = (h.objects j).queue ++ heard h j (e ∷ []) in
      rw (dispatch-size e h, dispatch-queue e h j v (room_now h j room))
        (elim room [
          | inl k ↦ HasRoom-free h.queue_size q (inl k)
          | inr k ↦ HasRoom-free h.queue_size q (inr (omega (arith, k, longer)))
        ])

  heard-append :
      (h : Hub F) (j : ℕ) (e : Event F) (q es : List (Event F))
      → (q ++ heard h j (e ∷ [])) ++ heard h j es ≡ q ++ heard h j (e ∷ es)
  heard-append h j e q es = elim (Bool-cases (hears h j e.device_id)) [
    | inl k ↦ rw k (append_assoc q (e ∷ []) (heard h j es))
    | inr k ↦ rw k (ap (λ x. x ++ heard h j es) (append_nil q))
  ]

  -- Of two events in a row the client hears those of its devices, the first one first.
  pub dispatch-dispatch_queue :
      (e f : Event F) (h : Hub F) (j : ℕ)
      → IsValid h
      → HasRoom h j
      → ((dispatch f (dispatch e h)).objects j).queue
        ≡ (h.objects j).queue ++ heard h j (e ∷ f ∷ [])
  dispatch-dispatch_queue e f h j v room =
      let free = room_now h j room in
      let g = dispatch e h in
      let same : heard g j (f ∷ []) ≡ heard h j (f ∷ []) =
        ap (λ b. if b then f ∷ [] else []) (dispatch-hears e h j f.device_id v free) in
      let second : ((dispatch f g).objects j).queue ≡ (g.objects j).queue ++ heard g j (f ∷ []) =
        dispatch-queue f g j (dispatch-IsValid e h v) (room_left e h j v room) in
      let first : (g.objects j).queue ≡ (h.objects j).queue ++ heard h j (e ∷ []) =
        dispatch-queue e h j v free in
      second
      ∙ ap (λ x. (g.objects j).queue ++ x) same
      ∙ ap (λ q. q ++ heard h j (f ∷ [])) first
      ∙ heard-append h j e (h.objects j).queue (f ∷ [])
