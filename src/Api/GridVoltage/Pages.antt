-- ===== src/Api/GridVoltage/Pages.antt =====
-- A client that follows the cursors of handleGridVoltage.
use go_goodwe.Base.{
  ℕ, zero, suc, ◌^◌, ◌≤◌, ◌<◌, ltb, leb, lt→ltb, ltb→lt, ◌⊎◌, ◌&&◌, true, false, Bool-cases,
  if◌then◌else◌, List, [], ◌∷◌, ◌++◌, take, drop, length, length-take, length-reverse, reverse-All,
  length-drop, take_all, take-append-drop, All, Option, none, some, inl, inr, ◌≡◌, ◌≢◌, refl, ap,
  sym, subst, ◌∙◌, arith,
}
use mathlib.Core.List.{reverse}
use go_goodwe.Base.Text.{Text, decimal}
use go_goodwe.Base.Text.Decimal.{parse_int, parse_int-decimal, decimal-ne-nil}
use go_goodwe.Base.Int.{pos}
use go_goodwe.Et.Value.{Float64}
use go_goodwe.Db.Tables.{VoltageEvent, Tables, Engine, IsHealthy, keep}
use go_goodwe.Db.Keep.{keep-keep, keep-All, keep_holds}
use go_goodwe.Db.Voltage.{query_voltage_events, get_voltage_analysis_cursor}
use go_goodwe.Api.Response.{json, json_error}
use go_goodwe.Api.GridVoltage.{
  VoltagePage, next_cursor, voltage_limit, voltage_before, voltage_page, handle_grid_voltage,
}
use go_goodwe.Api.GridVoltage.Falling.{
  IsRising, IsFalling, is_before, reverse-Falling, reverse-keep, keep-Falling,
  next_cursor-take_upper, next_cursor-take_lower, keep-next_cursor,
}

module _ {fl : Float64} (engine : Engine fl) (poll_interval : ℕ) where
  -- The pages from a cursor on, one request after the other; `none` if one is refused or if there
  -- are more than `requests`.
  unfoldable pub all_pages : ℕ → Text → Text → Tables fl → Option (List (VoltageEvent fl))
  all_pages zero before limit t = none
  all_pages (suc requests) before limit t =
      let (response, u) = handle_grid_voltage engine poll_interval true before limit t in
      elim response [
        | json_error status message ↦ none
        | json page ↦ elim page.has_more [
          | false ↦ some page.events
          | true ↦ elim (all_pages requests (decimal page.next) limit u) [
            | none ↦ none
            | some more ↦ some (page.events ++ more)
          ]
        ]
      ]

  -- The events before a cursor, the newest first; all if it is 0.
  abbrev remaining : ℕ → Tables fl → List (VoltageEvent fl)
  remaining zero t = reverse t.events
  remaining (suc b) t = reverse (keep (is_before (suc b)) t.events)

  remaining_if :
      (before : ℕ) (t : Tables fl)
      → reverse (if ltb 0 before then keep (is_before before) t.events else t.events)
        ≡ remaining before t
  remaining_if zero t = refl
  remaining_if (suc b) t = ground (arith, lt→ltb 0 (suc b) (omega arith))

  module _ (healthy : IsHealthy engine) where
    abbrev page_of : ℕ → ℕ → Tables fl → VoltagePage fl
    page_of before limit t = record {
      events = take limit (remaining before t);
      total_events = length t.events;
      next = next_cursor (take limit (remaining before t));
      has_more = leb limit (length (take limit (remaining before t)));
      last_run_at = some t.cursor.last_run_at;
      poll_interval = poll_interval;
    }

    voltage_page-healthy :
        (before limit : ℕ) (t : Tables fl)
        → voltage_page engine poll_interval before limit t
          ≡ (json (page_of before limit t), record t { executed = suc (suc (suc t.executed)) })
    unfolding voltage_page query_voltage_events get_voltage_analysis_cursor
    voltage_page-healthy before limit t = ground (
      arith,
      healthy t.executed,
      healthy (suc t.executed),
      healthy (suc (suc t.executed)),
      remaining_if before t,
    )

    -- The numbers of the events rise from 1 on and fit an int64.
    pub record IsNumbered (events : List (VoltageEvent fl)) : Type 0 where
      pub rising : IsRising events
      pub positive : All (λ e. 0 < e.id) events
      pub small : All (λ e. e.id < 2 ^ 63) events

    remaining-Falling :
        (before : ℕ) (t : Tables fl) → IsRising t.events → IsFalling (remaining before t)
    remaining-Falling zero t up = reverse-Falling t.events up
    remaining-Falling (suc b) t up =
        subst (λ s. IsFalling s) (sym (reverse-keep (is_before (suc b)) t.events))
          (keep-Falling (is_before (suc b)) (reverse t.events) (reverse-Falling t.events up))

    remaining-All :
        (P : VoltageEvent fl → Type 0) (before : ℕ) (t : Tables fl)
        → All P t.events
        → All P (remaining before t)
    remaining-All P zero t h = reverse-All P t.events h
    remaining-All P (suc b) t h =
        reverse-All P (keep (is_before (suc b)) t.events)
          (keep-All P (is_before (suc b)) t.events h)

    before-lt :
        (b : ℕ) (events : List (VoltageEvent fl))
        → All (λ e. is_before b e ≡ true) events
        → All (λ e. e.id < b) events
    before-lt b [] h = tt
    before-lt b (e ∷ events) (h, hs) = (ltb→lt e.id b h, before-lt b events hs)

    -- Keeping what is before a number of the remaining events.
    keep-remaining :
        (before x : ℕ) (t : Tables fl)
        → (before ≡ 0) ⊎ (x < before)
        → keep (is_before x) (remaining before t) ≡ keep (is_before x) (reverse t.events)
    keep-remaining zero x t h = refl
    keep-remaining (suc b) x t h =
        ap (keep (is_before x)) (reverse-keep (is_before (suc b)) t.events)
        ∙ keep-keep (is_before (suc b)) (is_before x) (is_before x) (reverse t.events)
            (λ e. below e.id)
      where
        below : (n : ℕ) → ltb n x ≡ (ltb n (suc b) && ltb n x)
        below n = elim h [ inl e ↦ absurd (omega (arith, e)) | inr small ↦ ground (arith, small) ]

    next_of :
        (before n : ℕ) (t : Tables fl)
        → IsNumbered t.events
        → suc n ≤ length (remaining before t)
        → let x = next_cursor (take (suc n) (remaining before t)) in
          (0 < x) × (x < 2 ^ 63) × ((before ≡ 0) ⊎ (x < before))
    next_of before n t numbered enough = (
      next_cursor-take_lower n (remaining before t) enough
          (remaining-All (λ e. 0 < e.id) before t numbered.positive),
      next_cursor-take_upper n (2 ^ 63) (remaining before t) enough
          (remaining-All (λ e. e.id < 2 ^ 63) before t numbered.small),
      bound before enough,
    )
      where
        bound :
            (b : ℕ)
            → suc n ≤ length (remaining b t)
            → (b ≡ 0) ⊎ (next_cursor (take (suc n) (remaining b t)) < b)
        bound zero enough = inl refl
        bound (suc b) enough = inr (
            next_cursor-take_upper n (suc b) (remaining (suc b) t) enough (
              reverse-All (λ e. e.id < suc b) (keep (is_before (suc b)) t.events)
                (before-lt (suc b) (keep (is_before (suc b)) t.events)
                  (keep_holds (is_before (suc b)) t.events))))

    page_rest :
        (before n : ℕ) (t : Tables fl)
        → IsNumbered t.events
        → suc n ≤ length (remaining before t)
        → remaining (next_cursor (take (suc n) (remaining before t))) t
          ≡ drop (suc n) (remaining before t)
    page_rest before n t numbered enough =
        let x = next_cursor (take (suc n) (remaining before t)) in
        let (some_left, _, below) = next_of before n t numbered enough in
        ground (
          arith,
          remaining_if x t,
          lt→ltb 0 x some_left,
          reverse-keep (is_before x) t.events,
          keep-remaining before x t below,
          keep-next_cursor n (remaining before t) (remaining-Falling before t numbered.rising)
              enough,
        )

    voltage_before-decimal : (x : ℕ) → x < 2 ^ 63 → voltage_before (decimal x) ≡ some x
    unfolding voltage_before
    voltage_before-decimal x small =
        by_text (decimal x) (decimal-ne-nil x) (parse_int-decimal x small)
      where
        by_text :
            (text : Text) → text ≢ [] → parse_int text ≡ some (pos x) → voltage_before text ≡ some x
        by_text [] nonempty parsed = absurd (nonempty refl)
        by_text (c ∷ s) nonempty parsed = ground (arith, parsed)

    pages_remaining :
        (n : ℕ) (limit_text : Text)
        → voltage_limit limit_text ≡ some (suc n)
        → (requests before : ℕ) (before_text : Text) (t : Tables fl)
        → voltage_before before_text ≡ some before
        → IsNumbered t.events
        → length (remaining before t) < requests
        → all_pages requests before_text limit_text t ≡ some (remaining before t)
    unfolding all_pages handle_grid_voltage
    pages_remaining n limit_text limited zero before before_text t from numbered enough =
        absurd (omega arith)
    pages_remaining n limit_text limited (suc requests) before before_text t from numbered enough =
        let answered = voltage_page-healthy before (suc n) t in
        let u : Tables fl = record t { executed = suc (suc (suc t.executed)) } in
        let left = remaining before t in
        let taken = length-take (suc n) left in
        elim (Bool-cases (leb (suc n) (length (take (suc n) left)))) [
          | inr last ↦ ground (
            arith,
            limited,
            from,
            answered,
            last,
            take_all (suc n) left (ground (arith, last, taken)),
          )
          | inl full ↦
              let x = next_cursor (take (suc n) left) in
              let all : suc n ≤ length left = ground (arith, full, taken) in
              let (_, small, _) = next_of before n t numbered all in
              let rest = page_rest before n t numbered all in
              let dropped = length-drop (suc n) left in
              let more =
                pages_remaining n limit_text limited requests x (decimal x) u
                  (voltage_before-decimal x small) numbered
                  (ground (arith, rest, dropped, all, enough)) in
              ground
                (arith, limited, from, answered, full, more, rest, take-append-drop (suc n) left)
        ]

    -- Where no statement fails and the numbers of the events rise from 1 on, a client that starts
    -- without a cursor and follows the cursors of the answers, with any limit that is accepted, gets
    -- every event once, the newest first, in at most one request more than there are events.
    pub handle_grid_voltage_pages :
        (n : ℕ) (limit_text : Text) (t : Tables fl)
        → voltage_limit limit_text ≡ some (suc n)
        → IsNumbered t.events
        → all_pages (suc (length t.events)) [] limit_text t ≡ some (reverse t.events)
    unfolding voltage_before
    handle_grid_voltage_pages n limit_text t limited numbered =
        pages_remaining n limit_text limited (suc (length t.events)) 0 [] t refl numbered
          (omega (arith, length-reverse t.events))
