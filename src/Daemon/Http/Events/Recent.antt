-- ===== src/Daemon/Http/Events/Recent.antt =====
-- The ring of recent events keeps the last ones.
use sinfonia.Base.{
  ℕ, zero, suc, ◌-◌, ◌≤◌, ◌≡◌, ◌∙◌, refl, sym, ap, leb, List, [], ◌∷◌, ◌++◌, length, length-append,
  arith, Bool-cases, inl, inr,
}
use mathlib.Core.List.{append_assoc, append-nil}
use sinfonia.Json.{Json}
use sinfonia.Daemon.Http.Events.{recent_buffer_capacity, pop_front, push}

abbrev pub drop : {A : Type 0} → ℕ → List A → List A
drop zero xs = xs
drop (suc n) [] = []
drop (suc n) (x ∷ xs) = drop n xs

abbrev pub push_all : List Json → List Json → List Json
push_all [] events = events
push_all (ev ∷ evs) events = push_all evs (push ev events)

-- The last `recent_buffer_capacity` events of a list
abbrev pub last_of : List Json → List Json
last_of events = drop (length events - recent_buffer_capacity) events

drop-append :
    {A : Type 0} (n : ℕ) (xs ys : List A) → n ≤ length xs → drop n (xs ++ ys) ≡ drop n xs ++ ys
drop-append zero xs ys h = refl
drop-append (suc n) [] ys h = absurd (omega (arith, h))
drop-append (suc n) (x ∷ xs) ys h = drop-append n xs ys (omega (arith, h))

pop_front-drop : (n : ℕ) (xs : List Json) → pop_front (drop n xs) ≡ drop (suc n) xs
pop_front-drop zero [] = refl
pop_front-drop zero (x ∷ xs) = refl
pop_front-drop (suc n) [] = refl
pop_front-drop (suc n) (x ∷ xs) = pop_front-drop n xs

length-drop : (n : ℕ) (xs : List Json) → length (drop n xs) ≡ length xs - n
length-drop zero xs = omega arith
length-drop (suc n) [] = omega arith
length-drop (suc n) (x ∷ xs) = omega (arith, length-drop n xs)

drop_at : (m n : ℕ) (xs : List Json) → m ≡ n → drop m xs ≡ drop n xs
drop_at m n xs h = ap (λ k. drop k xs) h

push-last_of : (ev : Json) (evs : List Json) → push ev (last_of evs) ≡ last_of (evs ++ ev ∷ [])
unfolding push
push-last_of ev evs =
    let kept = length-drop (length evs - recent_buffer_capacity) evs in
    let more = length-append evs (ev ∷ []) in
    elim (Bool-cases (leb recent_buffer_capacity (length (last_of evs)))) [
      | inl full ↦
          let long : 200 ≤ length evs = ground (arith, full, kept) in
          rw (full) (
            ap (λ (xs : List Json). xs ++ ev ∷ []) (pop_front-drop (length evs - 200) evs)
            ∙ sym (drop-append (suc (length evs - 200)) evs (ev ∷ []) (omega (arith, long)))
            ∙ drop_at (suc (length evs - 200)) (length (evs ++ ev ∷ []) - 200) (evs ++ ev ∷ [])
                (omega (arith, long, more)))
      | inr room ↦
          let short : length evs ≤ 199 = ground (arith, room, kept) in
          rw (room) (
            sym (drop-append (length evs - 200) evs (ev ∷ []) (omega arith))
            ∙ drop_at (length evs - 200) (length (evs ++ ev ∷ []) - 200) (evs ++ ev ∷ [])
                (omega (arith, short, more)))
    ]

push_all-last_of : (evs seen : List Json) → push_all evs (last_of seen) ≡ last_of (seen ++ evs)
push_all-last_of [] seen = ap last_of (sym (append-nil seen))
push_all-last_of (ev ∷ evs) seen =
    ap (push_all evs) (push-last_of ev seen)
    ∙ push_all-last_of evs (seen ++ ev ∷ [])
    ∙ ap last_of (append_assoc seen (ev ∷ []) evs)

-- After any events, the ring holds the last 200 of them, in order.
pub push_all_lem : (evs : List Json) → push_all evs [] ≡ last_of evs
push_all_lem evs = push_all-last_of evs []
