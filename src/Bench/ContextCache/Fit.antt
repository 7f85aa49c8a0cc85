-- ===== src/Bench/ContextCache/Fit.antt =====
-- The search of glm53-context-cache.py ends, at the last count whose prompt fits.
use nix_strix_halo.Prelude.{
  ℕ, zero, suc, ◌+◌, ◌*◌, ◌/◌, ◌-◌, ◌^◌, ◌≤◌, ◌<◌, ◌≡◌, ◌↔◌, ◌⊎◌, refl, sym, ap, ◌∙◌, true, false,
  Option, none, some, arith, Bool-cases, inl, inr, leb, ltb, leb→le, ltb→lt,
}
use nix_strix_halo.Prelude.Text.{Text}
use nix_strix_halo.Bench.Script.{Outcome, gives, followed-next}
use nix_strix_halo.Bench.Server.{answered}
use nix_strix_halo.Bench.ContextCache.{
  Chat, make_messages, made_of, prompt_of, tokenize, grow, narrow, fit,
}
use nix_strix_halo.Bench.ContextCache.Markers.{make_messages-some}
use native.Mathlib.Omega.{pow_step}
use native.Mathlib.Nat.{mul_assoc}

module _ (chat : Chat) where
  open chat use {State}

  -- The server counts the tokens of a text, always alike, and nothing else changes.
  abbrev pub IsCounter : (Text → ℕ) → Type 0
  IsCounter size = (t : Text) (s : State) → chat.tokenize t s ≡ (some (size t), s)

  module _ (size : Text → ℕ) (counts : IsCounter size) where
    abbrev pub sized : Option Text → ℕ
    sized none = 0
    sized (some t) = size t

    -- The tokens of the prompt with that many records.
    unfoldable pub size_of : ℕ → ℕ
    size_of count = sized (make_messages count)

    pub size_of-content :
        (count : ℕ) {t : Text} → make_messages count ≡ some t → size_of count ≡ size t
    unfolding size_of
    size_of-content count e = ap sized e

    prompt_of-content :
        (count : ℕ) {t : Text} (s : State)
        → make_messages count ≡ some t
        → prompt_of chat count s ≡ gives t s
    prompt_of-content count s e = ap (λ o. made_of chat o s) e

    tokenize-size_of :
        (count : ℕ) (s : State)
        → 1 ≤ count
        → (t : Text) × (tokenize chat count s ≡ gives (t, size_of count) s)
    unfolding tokenize
    tokenize-size_of count s h =
        let (t, e) = make_messages-some count h in
        (
          t,
          followed-next _ (prompt_of-content count s e)
              ∙ followed-next _ (ap answered (counts t s))
              ∙ ap (λ n. gives (t, n) s) (sym (size_of-content count e)),
        )

    module _ (target : ℕ) where
      -- Either the loop did not move the lower end, or it was measured.
      abbrev IsLower : ℕ → ℕ → Type 0
      IsLower start n = (n ≡ start) ⊎ (size_of n ≤ target)

      grow-more :
          (fuel lo hi : ℕ) (s : State)
          → 1 ≤ hi
          → leb (size_of hi) target ≡ true
          → grow chat (suc fuel) target lo hi s ≡ grow chat fuel target hi (hi * 2) s
      unfolding grow
      grow-more fuel lo hi s h go =
          let (t, e) = tokenize-size_of hi s h in followed-next _ e ∙ rw go refl

      grow-stop :
          (fuel lo hi : ℕ) (s : State)
          → 1 ≤ hi
          → leb (size_of hi) target ≡ false
          → grow chat (suc fuel) target lo hi s ≡ gives (lo, hi) s
      unfolding grow
      grow-stop fuel lo hi s h stop =
          let (t, e) = tokenize-size_of hi s h in followed-next _ e ∙ rw stop refl

      leb-false : (a b : ℕ) → leb a b ≡ false → b < a
      leb-false a b h = ground arith

      grow-IsLower :
          (fuel k lo hi : ℕ) (s : State)
          → k < fuel
          → lo < hi
          → target < size_of (hi * 2 ^ k)
          → (l h : ℕ) × (grow chat fuel target lo hi s ≡ gives (l, h) s)
            × IsLower lo l
            × (lo ≤ l)
            × (l < h)
            × (target < size_of h)
      grow-IsLower zero k lo hi s a b big = absurd (omega arith)
      grow-IsLower (suc fuel) k lo hi s a b big = elim (Bool-cases (leb (size_of hi) target)) [
        | inr stop ↦ (
          lo,
          hi,
          grow-stop fuel lo hi s (omega arith) stop,
          inl refl,
          omega arith,
          b,
          leb-false _ _ stop,
        )
        | inl go ↦
            doubled k a big (leb→le _ _ go)
              (λ k a big. grow-IsLower fuel k hi (hi * 2) s a (omega arith) big)
              (grow-more fuel lo hi s (omega arith) go)
      ]
        where
          lower : (l : ℕ) → IsLower hi l → size_of hi ≤ target → size_of l ≤ target
          lower l (inl e) small = rw e small
          lower l (inr h) small = h

          doubled :
              (k : ℕ)
              → k < suc fuel
              → target < size_of (hi * 2 ^ k)
              → size_of hi ≤ target
              → ((k : ℕ)
                  → k < fuel
                  → target < size_of (hi * 2 * 2 ^ k)
                  → (l h : ℕ) × (grow chat fuel target hi (hi * 2) s ≡ gives (l, h) s)
                    × IsLower hi l
                    × (hi ≤ l)
                    × (l < h)
                    × (target < size_of h))
              → grow chat (suc fuel) target lo hi s ≡ grow chat fuel target hi (hi * 2) s
              → (l h : ℕ) × (grow chat (suc fuel) target lo hi s ≡ gives (l, h) s)
                × IsLower lo l
                × (lo ≤ l)
                × (l < h)
                × (target < size_of h)
          doubled zero a big small ih step =
              let same : hi * 2 ^ zero ≡ hi = omega arith in
              absurd (let over : target < size_of hi = rw same at big in omega arith)
          doubled (suc k) a big small ih step =
              let same : hi * 2 ^ suc k ≡ hi * 2 * 2 ^ k =
                ap (λ p. hi * p) (pow_step 2 k) ∙ sym (mul_assoc hi 2 (2 ^ k)) in
              let (l, h, e, low, le, lt, over) = ih k (omega arith) (rw same at big) in
              (l, h, step ∙ e, inr (lower l low small), omega arith, lt, over)

      ltb-false : (a b : ℕ) → ltb a b ≡ false → b ≤ a
      ltb-false a b h = ground arith

      narrow-stop :
          (fuel lo hi : ℕ) (s : State)
          → ltb (lo + 1) hi ≡ false
          → narrow chat (suc fuel) target lo hi s ≡ gives lo s
      unfolding narrow
      narrow-stop fuel lo hi s e = rw (e, narrow) refl

      narrow-up :
          (fuel lo hi : ℕ) (s : State)
          → ltb (lo + 1) hi ≡ true
          → 1 ≤ (lo + hi) / 2
          → leb (size_of ((lo + hi) / 2)) target ≡ true
          → narrow chat (suc fuel) target lo hi s ≡ narrow chat fuel target ((lo + hi) / 2) hi s
      unfolding narrow
      narrow-up fuel lo hi s e h up =
          let (t, step) = tokenize-size_of ((lo + hi) / 2) s h in
          rw (e, narrow) (followed-next _ step ∙ rw up refl)

      narrow-down :
          (fuel lo hi : ℕ) (s : State)
          → ltb (lo + 1) hi ≡ true
          → 1 ≤ (lo + hi) / 2
          → leb (size_of ((lo + hi) / 2)) target ≡ false
          → narrow chat (suc fuel) target lo hi s ≡ narrow chat fuel target lo ((lo + hi) / 2) s
      unfolding narrow
      narrow-down fuel lo hi s e h down =
          let (t, step) = tokenize-size_of ((lo + hi) / 2) s h in
          rw (e, narrow) (followed-next _ step ∙ rw down refl)

      -- Where a search from these ends stops: at a count that the next one exceeds.
      abbrev IsLast : ℕ → ℕ → Outcome State ℕ → State → Type 0
      IsLast start lo o s =
          (l : ℕ) × (o ≡ gives l s) × IsLower start l × (lo ≤ l) × (target < size_of (l + 1))

      narrow-IsLast :
          (start fuel lo hi : ℕ) (s : State)
          → lo < hi
          → hi - lo ≤ fuel
          → IsLower start lo
          → target < size_of hi
          → IsLast start lo (narrow chat fuel target lo hi s) s
      narrow-IsLast start zero lo hi s lt enough low over = absurd (omega arith)
      narrow-IsLast start (suc fuel) lo hi s lt enough low over =
          elim (Bool-cases (ltb (lo + 1) hi)) [
            | inr e ↦
                let meet : hi ≡ lo + 1 = let h = ltb-false (lo + 1) hi e in omega arith in
                (lo, narrow-stop fuel lo hi s e, low, omega arith, rw meet at over)
            | inl e ↦ elim (Bool-cases (leb (size_of ((lo + hi) / 2)) target)) [
              | inl up ↦
                  let gap = ltb→lt (lo + 1) hi e in
                  let (l, run, lower, le, last) =
                    narrow-IsLast start fuel ((lo + hi) / 2) hi s (omega arith) (omega arith)
                      (inr (leb→le _ _ up)) over in
                  (l, narrow-up fuel lo hi s e (omega arith) up ∙ run, lower, omega arith, last)
              | inr down ↦
                  let gap = ltb→lt (lo + 1) hi e in
                  let (l, run, lower, le, last) =
                    narrow-IsLast start fuel lo ((lo + hi) / 2) s (omega arith) (omega arith) low
                      (leb-false _ _ down) in
                  (l, narrow-down fuel lo hi s e (omega arith) down ∙ run, lower, le, last)
            ]
          ]

      -- Against a server that counts the tokens of a text and changes nothing, where a doubling of
      -- 256 records within the fuel exceeds the target, the search ends without running out of
      -- fuel, at ten records or at a number that fits, at least ten, and one record more exceeds
      -- the target.
      pub fit-IsLast :
          (fuel k : ℕ) (s : State)
          → k < fuel
          → target < size_of (256 * 2 ^ k)
          → (l : ℕ) × (fit chat fuel target s ≡ gives l s)
            × ((l ≡ 10) ⊎ (size_of l ≤ target))
            × (10 ≤ l)
            × (target < size_of (l + 1))
      unfolding fit
      fit-IsLast fuel k s h over =
          let (l, top, run, low, le, lt, high) =
            grow-IsLower fuel k 10 256 s h (omega arith) over in
          let (last, found, lower, above, next) =
            narrow-IsLast 10 top l top s lt (omega arith) low high in
          (last, followed-next _ run ∙ found, lower, omega arith, next)

      -- Against a server that counts the tokens of a text and changes nothing, where a doubling of
      -- 256 records within the fuel exceeds the target, ten records fit, and more records never
      -- have fewer tokens, the search returns the largest number of records that fits: exactly the
      -- numbers up to it fit.
      pub fit-largest :
          (fuel k : ℕ) (s : State)
          → k < fuel
          → target < size_of (256 * 2 ^ k)
          → size_of 10 ≤ target
          → ((n m : ℕ) → 1 ≤ n → n ≤ m → size_of n ≤ size_of m)
          → (l : ℕ) × (fit chat fuel target s ≡ gives l s)
            × ((n : ℕ) → 1 ≤ n → (size_of n ≤ target) ↔ (n ≤ l))
      fit-largest fuel k s h over small mono =
          let (l, run, lower, le, next) = fit-IsLast fuel k s h over in
          (l, run, λ n one. (inside l n one next, λ below. within l lower n one below))
        where
          inside : (l n : ℕ) → 1 ≤ n → target < size_of (l + 1) → size_of n ≤ target → n ≤ l
          inside l n one next fits = elim (Bool-cases (leb n l)) [
            | inl e ↦ leb→le n l e
            | inr e ↦
                let far = mono (l + 1) n (omega arith) (let far = leb-false n l e in omega arith) in
                absurd (omega arith)
          ]

          within :
              (l : ℕ)
              → ((l ≡ 10) ⊎ (size_of l ≤ target))
              → (n : ℕ) → 1 ≤ n
              → n ≤ l
              → size_of n ≤ target
          within l (inl e) n one below = let up = mono n 10 one (rw e at below) in omega arith
          within l (inr fits) n one below = let up = mono n l one below in omega arith
