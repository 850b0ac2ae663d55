-- ===== src/Gateway/Rate/Window.antt =====
-- The sliding window of `rate_limit_allows` against the messages that were sent.
use asterion.Prelude.{
  ◌≡◌, ◌∙◌, sym, ap, inl, inr, refl, true, false, List, [], ◌∷◌, ◌++◌, All, if◌then◌else◌,
  Bool-cases, arith, length, leb, ◌<◌, ◌==◌, ◌||◌, All-append, ==_self, append_assoc, append-nil,
}
use asterion.Prelude.Assoc.{find, find-put}
use asterion.Matching.Admit.{NewOrderRequest}
use asterion.Prelude.Int.{ℤ, pos, ◌-ℤ◌, ◌≤ℤ◌, ◌<ℤ◌, leb_ℤ, ltb_ℤ, -ℤ_parts}
use asterion.Gateway.{RiskGateway, RateState, sliding_window}
use asterion.Gateway.Rate.{
  drop_expired, count_message, new_rate_state, rate_or_new, rate_limit_allows,
}

-- The messages that are less than a window old.
unfoldable pub recent : ℤ → ℤ → List ℤ → List ℤ
recent window now_ns [] = []
recent window now_ns (t ∷ ts) =
    let rest = recent window now_ns ts in if ltb_ℤ (now_ns -ℤ t) window then t ∷ rest else rest

-- Times in the order in which they come, none after `now_ns`.
abbrev pub Ordered : ℤ → List ℤ → Type 0
Ordered now_ns [] = Unit
Ordered now_ns (t ∷ ts) = (t ≤ℤ now_ns) × All (λ u. t ≤ℤ u) ts × Ordered now_ns ts

-- Times that do not fall, from `m` to `n`.
abbrev pub Ascending : ℤ → List ℤ → ℤ → Type 0
Ascending m [] n = m ≤ℤ n
Ascending m (t ∷ ts) n = (m ≤ℤ t) × Ascending t ts n

-- The messages of one client, one after another.
unfoldable pub after : ℤ → List ℤ → RateState → RateState
after window [] s = s
after window (t ∷ ts) s = after window ts (count_message sliding_window window t s).0

module _ (window : ℤ) where
  recent-All :
      (n t : ℤ) (ts : List ℤ)
      → ltb_ℤ (n -ℤ t) window ≡ true
      → All (λ u. t ≤ℤ u) ts
      → recent window n ts ≡ ts
  unfolding recent
  recent-All n t [] h a = refl
  recent-All n t (u ∷ ts) h a =
      let young : ltb_ℤ (n -ℤ u) window ≡ true = ground (arith, -ℤ_parts n t, -ℤ_parts n u, a.0) in
      rw (young, recent-All n t ts h a.1) refl

  -- On ordered times, what is dropped from the front is all that is expired.
  drop_expired-recent :
      (n m : ℤ) (ts : List ℤ) → Ordered m ts → drop_expired window n ts ≡ recent window n ts
  unfolding drop_expired recent
  drop_expired-recent n m [] o = refl
  drop_expired-recent n m (t ∷ ts) o = elim (Bool-cases (leb_ℤ window (n -ℤ t))) [
    | inl old ↦
        let gone : ltb_ℤ (n -ℤ t) window ≡ false = ground arith in
        rw (old, gone) (drop_expired-recent n m ts o.2)
    | inr young ↦
        let kept : ltb_ℤ (n -ℤ t) window ≡ true = ground arith in
        rw (young, kept, recent-All n t ts kept o.1) refl
  ]

  recent-recent :
      (m n : ℤ) (ts : List ℤ) → m ≤ℤ n → recent window n (recent window m ts) ≡ recent window n ts
  unfolding recent
  recent-recent m n [] h = refl
  recent-recent m n (t ∷ ts) h = elim (Bool-cases (ltb_ℤ (m -ℤ t) window)) [
    | inl young ↦ rw (young, recent, recent-recent m n ts h) refl
    | inr old ↦
        let gone : ltb_ℤ (n -ℤ t) window ≡ false =
          ground (arith, old, -ℤ_parts m t, -ℤ_parts n t) in
        rw (old, gone) (recent-recent m n ts h)
  ]

  recent-Ordered : (k n : ℤ) (ts : List ℤ) → Ordered k ts → Ordered k (recent window n ts)
  unfolding recent
  recent-Ordered k n [] o = tt
  recent-Ordered k n (t ∷ ts) o = elim (Bool-cases (ltb_ℤ (n -ℤ t) window)) [
    | inl young ↦
        let whole : recent window n ts ≡ ts = recent-All n t ts young o.1 in rw (young, whole) o
    | inr old ↦ rw old (recent-Ordered k n ts o.2)
  ]

  recent-append :
      (n t : ℤ) (ts : List ℤ)
      → recent window n (ts ++ t ∷ []) ≡ recent window n ts ++ recent window n (t ∷ [])
  unfolding recent
  recent-append n t [] = refl
  recent-append n t (u ∷ ts) = elim (Bool-cases (ltb_ℤ (n -ℤ u) window)) [
    | inl young ↦ rw young (ap (λ l. u ∷ l) (recent-append n t ts))
    | inr old ↦ rw old (recent-append n t ts)
  ]

  module _ (positive : pos 0 <ℤ window) where
    recent_self : (n : ℤ) → recent window n (n ∷ []) ≡ n ∷ []
    unfolding recent
    recent_self n = rw (zero_age n) refl
      where
        zero_age : (n : ℤ) → ltb_ℤ (n -ℤ n) window ≡ true
        zero_age n = ground (arith, -ℤ_parts n n)

    -- One message: what is kept is what is recent, the new message with it.
    kept-recent :
        (m n : ℤ) (ts : List ℤ)
        → Ordered m ts
        → m ≤ℤ n
        → drop_expired window n (recent window m ts) ++ n ∷ [] ≡ recent window n (ts ++ n ∷ [])
    kept-recent m n ts o h =
        ap (λ l. l ++ n ∷ [])
          (drop_expired-recent n m (recent window m ts) (recent-Ordered m m ts o)
            ∙ recent-recent m n ts h)
        ∙ sym (recent-append n n ts ∙ ap (λ l. recent window n ts ++ l) (recent_self n))

    Ordered-append : (m n : ℤ) (ts : List ℤ) → Ordered m ts → m ≤ℤ n → Ordered n (ts ++ n ∷ [])
    Ordered-append m n [] o h = (omega arith, tt, tt)
    Ordered-append m n (t ∷ ts) o h = (
      omega (arith, o.0),
      All-append (λ u. t ≤ℤ u) ts (n ∷ []) o.1 (omega (arith, o.0), tt),
      Ordered-append m n ts o.2 h,
    )

    -- The count of a message after others, the first of them already in the state.
    count_after :
        (ts hist : List ℤ) (m n : ℤ) (s : RateState)
        → Ordered m hist
        → s.sliding_timestamps ≡ recent window m hist
        → Ascending m ts n
        → (count_message sliding_window window n (after window ts s)).1
          ≡ length (recent window n ((hist ++ ts) ++ n ∷ []))
    unfolding count_message after
    count_after [] hist m n s o e a =
        ap (λ l. length (drop_expired window n l ++ n ∷ [])) e
        ∙ ap length (
            kept-recent m n hist o a
            ∙ ap (λ l. recent window n (l ++ n ∷ [])) (sym (append-nil hist)))
    count_after (t ∷ ts) hist m n s o e a =
        count_after ts (hist ++ t ∷ []) t n (count_message sliding_window window t s).0
          (Ordered-append m t hist o a.0)
          (ap (λ l. drop_expired window t l ++ t ∷ []) e ∙ kept-recent m t hist o a.0) a.1
        ∙ ap (λ l. length (recent window n (l ++ n ∷ []))) (append_assoc hist (t ∷ []) ts)

recent_nil : (window n : ℤ) → [] ≡ recent window n []
unfolding recent
recent_nil window n = refl

after-append :
    (window n : ℤ) (ts : List ℤ) (s : RateState)
    → (count_message sliding_window window n (after window ts s)).0 ≡ after window (ts ++ n ∷ []) s
unfolding after
after-append window n [] s = refl
after-append window n (t ∷ ts) s =
    after-append window n ts (count_message sliding_window window t s).0

-- With a sliding window and a limit, a client whose earlier messages came at the times `ts`, which do not
-- fall and end by now, is allowed one more exactly if the messages less than a window old, refused ones
-- and this one with them, are at most the limit; that number is reported, and the message joins the
-- earlier ones.
pub rate_limit_allows-recent :
    (r : NewOrderRequest) (now_ns start : ℤ) (ts : List ℤ) (g : RiskGateway)
    → g.limits.rate_limit_mode ≡ sliding_window
    → pos 0 <ℤ g.limits.rate_window_ns
    → 0 < g.limits.max_messages_per_window
    → rate_or_new (find r.client_id g.rate_states) ≡ after g.limits.rate_window_ns ts new_rate_state
    → Ascending start ts now_ns
    → let n = length (recent g.limits.rate_window_ns now_ns (ts ++ now_ns ∷ [])) in
      ((rate_limit_allows r now_ns g).1 ≡ leb n g.limits.max_messages_per_window)
      × ((rate_limit_allows r now_ns g).2 ≡ pos n)
      × (rate_or_new (find r.client_id (rate_limit_allows r now_ns g).0.rate_states)
          ≡ after g.limits.rate_window_ns (ts ++ now_ns ∷ []) new_rate_state)
unfolding rate_limit_allows
rate_limit_allows-recent r now_ns start ts g sliding positive on e a =
    let w = g.limits.rate_window_ns in
    let count =
      count_after w positive ts [] start now_ns new_rate_state tt (recent_nil w start) a in
    let active : ((g.limits.max_messages_per_window == 0) || leb_ℤ w (pos 0)) ≡ false =
      ground arith in
    rw (active, sliding, e, count, find-put r.client_id r.client_id, ==_self r.client_id)
      (refl, refl, after-append w now_ns ts new_rate_state)
