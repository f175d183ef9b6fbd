-- ===== src/Db/Voltage/Events.antt =====
-- Events by their number: what is found after an insertion and after an update.
use go_goodwe.Base.{
  ℕ, ◌≤◌, ◌<◌, ◌==◌, List, [], ◌∷◌, ◌++◌, some, none, All, Bool-cases, ◌⊎◌, inl, inr, ◌≡◌, ◌≢◌,
  arith,
}
use go_goodwe.Et.Value.{Float64}
use go_goodwe.Db.Tables.{VoltageEvent}
use go_goodwe.Db.Voltage.{update_where, event_of}

module _ {fl : Float64} where
  -- The event of this number is stored and has not ended.
  abbrev pub IsOpen : ℕ → List (VoltageEvent fl) → Type 0
  IsOpen id events =
      (event : VoltageEvent fl) × (event_of id events ≡ some event) × (event.end_time ≡ none)

  abbrev pub AreUpTo : ℕ → List (VoltageEvent fl) → Type 0
  AreUpTo n events = All (λ event. event.id ≤ n) events

  pub AreUpTo-mono :
      (m n : ℕ) (events : List (VoltageEvent fl)) → m ≤ n → AreUpTo m events → AreUpTo n events
  AreUpTo-mono m n [] below h = tt
  AreUpTo-mono m n (event ∷ events) below (h, hs) = (omega arith, AreUpTo-mono m n events below hs)

  pub IsOpen-upper :
      (n id : ℕ) (events : List (VoltageEvent fl)) → AreUpTo n events → IsOpen id events → id ≤ n
  IsOpen-upper n id [] h (e, found, open_end) = cc
  IsOpen-upper n id (event ∷ events) (h, hs) (e, found, open_end) =
      elim (Bool-cases (event.id == id)) [
        | inl same ↦ ground (arith, same, h)
        | inr other ↦ IsOpen-upper n id events hs (e, ground (arith, other, found), open_end)
      ]

  pub IsOpen-append :
      (id : ℕ) (events more : List (VoltageEvent fl))
      → IsOpen id events
      → IsOpen id (events ++ more)
  IsOpen-append id [] more (e, found, open_end) = cc
  IsOpen-append id (event ∷ events) more (e, found, open_end) = elim (Bool-cases (event.id == id)) [
    | inl same ↦ (e, ground (arith, same, found), open_end)
    | inr other ↦
        let (f, later, still) =
          IsOpen-append id events more (e, ground (arith, other, found), open_end) in
        (f, ground (arith, other, later), still)
  ]

  pub IsOpen-appended :
      (n : ℕ) (events : List (VoltageEvent fl)) (new : VoltageEvent fl)
      → AreUpTo n events
      → n < new.id
      → new.end_time ≡ none
      → IsOpen new.id (events ++ (new ∷ []))
  IsOpen-appended n [] new h above open_end = (new, ground arith, open_end)
  IsOpen-appended n (event ∷ events) new (h, hs) above open_end =
      let (f, later, still) = IsOpen-appended n events new hs above open_end in
      (f, ground (arith, later, h, above), still)

  module _ (id : ℕ) (change : VoltageEvent fl → VoltageEvent fl)
      (same_id : (event : VoltageEvent fl) → (change event).id ≡ event.id) where
    pub AreUpTo-update_where :
        (n : ℕ) (events : List (VoltageEvent fl))
        → AreUpTo n events
        → AreUpTo n (update_where id change events)
    AreUpTo-update_where n [] h = tt
    AreUpTo-update_where n (event ∷ events) (h, hs) =
        (ground (arith, same_id event, h), AreUpTo-update_where n events hs)

    pub IsOpen-update_where :
        (i : ℕ) (events : List (VoltageEvent fl))
        → (i ≡ id → (event : VoltageEvent fl) → (change event).end_time ≡ event.end_time)
        → IsOpen i events
        → IsOpen i (update_where id change events)
    IsOpen-update_where i [] kept (e, found, open_end) = cc
    IsOpen-update_where i (event ∷ events) kept (e, found, open_end) =
        elim (Bool-cases (event.id == i)) [
          | inl here ↦ elim (Bool-cases (event.id == id)) [
            | inl changed ↦
                let equal : i ≡ id = ground (arith, here, changed) in
                (
                  change event,
                  ground (arith, changed, here, same_id event),
                  ground (arith, kept equal event, here, found, open_end),
                )
            | inr unchanged ↦ (e, ground (arith, unchanged, here, found), open_end)
          ]
          | inr other ↦
              let (f, later, still) =
                IsOpen-update_where i events kept (e, ground (arith, other, found), open_end) in
              elim (Bool-cases (event.id == id)) [
                | inl changed ↦ (f, ground (arith, changed, other, same_id event, later), still)
                | inr unchanged ↦ (f, ground (arith, unchanged, other, later), still)
              ]
        ]

    -- A change that ends no ended event again opens none.
    pub IsOpen-update_where_back :
        (i : ℕ) (events : List (VoltageEvent fl))
        → ((event : VoltageEvent fl) → (change event).end_time ≡ none → event.end_time ≡ none)
        → IsOpen i (update_where id change events)
        → IsOpen i events
    IsOpen-update_where_back i [] kept (e, found, open_end) = cc
    IsOpen-update_where_back i (event ∷ events) kept (e, found, open_end) =
        elim (Bool-cases (event.id == id)) [
          | inl changed ↦ elim (Bool-cases (event.id == i)) [
            | inl here ↦
                let same : change event ≡ e = ground (arith, changed, here, same_id event, found) in
                (event, ground (arith, here), kept event (cc (same, open_end)))
            | inr other ↦
                let (f, later, still) =
                  IsOpen-update_where_back i events kept
                    (e, ground (arith, changed, other, same_id event, found), open_end) in
                (f, ground (arith, other, later), still)
          ]
          | inr unchanged ↦ elim (Bool-cases (event.id == i)) [
            | inl here ↦ (e, ground (arith, unchanged, here, found), open_end)
            | inr other ↦
                let (f, later, still) =
                  IsOpen-update_where_back i events kept
                    (e, ground (arith, unchanged, other, found), open_end) in
                (f, ground (arith, other, later), still)
          ]
        ]

    -- An update that sets the end leaves no event of that number open.
    pub IsOpen-update_where_ended :
        (events : List (VoltageEvent fl))
        → ((event : VoltageEvent fl) → (change event).end_time ≢ none)
        → ¬ IsOpen id (update_where id change events)
    IsOpen-update_where_ended [] ends (e, found, open_end) = cc
    IsOpen-update_where_ended (event ∷ events) ends (e, found, open_end) =
        elim (Bool-cases (event.id == id)) [
          | inl changed ↦
              let same : change event ≡ e = ground (arith, changed, same_id event, found) in
              ends event (cc (same, open_end))
          | inr unchanged ↦
              IsOpen-update_where_ended events ends (e, ground (arith, unchanged, found), open_end)
        ]

  pub IsOpen-append_back :
      (id : ℕ) (events : List (VoltageEvent fl)) (new : VoltageEvent fl)
      → IsOpen id (events ++ (new ∷ []))
      → (new.id ≡ id) ⊎ IsOpen id events
  IsOpen-append_back id [] new (e, found, open_end) = elim (Bool-cases (new.id == id)) [
    | inl here ↦ inl (ground (arith, here))
    | inr other ↦ absurd (ground (arith, other, found))
  ]
  IsOpen-append_back id (event ∷ events) new (e, found, open_end) =
      elim (Bool-cases (event.id == id)) [
        | inl here ↦ inr (e, ground (arith, here, found), open_end)
        | inr other ↦
            elim (IsOpen-append_back id events new (e, ground (arith, other, found), open_end)) [
              | inl last ↦ inl last
              | inr (f, later, still) ↦ inr (f, ground (arith, other, later), still)
            ]
      ]
