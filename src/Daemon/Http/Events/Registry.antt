-- ===== src/Daemon/Http/Events/Registry.antt =====
-- The registry against what it promises: an address has the subscriber that registered it last.
use sinfonia.Base.{
  ◌≡◌, refl, sym, String, true, Option, none, some, List, [], ◌∷◌, ◌++◌, find, str_eq, eq_iff,
  if◌then◌else◌, arith, Bool-cases, inl, inr,
}
use sinfonia.Daemon.Http.Events.{Subscriber, replace, add, remove_by_callback}

abbrev pub subscriber_at : String → List Subscriber → Option Subscriber
subscriber_at url subscribers = find (λ (s : Subscriber). str_eq s.callback_url url) subscribers

-- No address stands twice.
abbrev pub Distinct : List Subscriber → Type 0
Distinct [] = Unit
Distinct (s ∷ rest) = (subscriber_at s.callback_url rest ≡ none) × Distinct rest

abbrev or_added : Subscriber → String → Option Subscriber → Option Subscriber
or_added s url found = if str_eq s.callback_url url then some s else found

-- What a search by address says after a replacement
abbrev Replaced : Subscriber → List Subscriber → Option (List Subscriber) → Type 0
Replaced s xs none = subscriber_at s.callback_url xs ≡ none
Replaced s xs (some ys) =
    ((url : String) → subscriber_at url ys ≡ or_added s url (subscriber_at url xs))
    × (Distinct xs → Distinct ys)

replace_lem : (s : Subscriber) (xs : List Subscriber) → Replaced s xs (replace s xs)
replace_lem s [] = refl
replace_lem s (x ∷ rest) = step (replace s rest) (replace_lem s rest)
  where
    here : str_eq x.callback_url s.callback_url ≡ true → Replaced s (x ∷ rest) (some (s ∷ rest))
    here e =
        let same : x.callback_url ≡ s.callback_url = (eq_iff x.callback_url s.callback_url).0 e in
        (λ url. rw (same) (ground arith), λ d. (rw (sym same) d.0, d.1))

    step :
        (r : Option (List Subscriber))
        → Replaced s rest r
        → Replaced s (x ∷ rest) (elim r [
          | none ↦ if str_eq x.callback_url s.callback_url then some (s ∷ rest) else none
          | some replaced ↦
              if str_eq x.callback_url s.callback_url then some (s ∷ rest) else some (x ∷ replaced)
        ])
    step none ih = elim (Bool-cases (str_eq x.callback_url s.callback_url)) [
      | inl e ↦ rw (e) (here e)
      | inr e ↦ rw (e) (rw (e) ih)
    ]
    step (some replaced) ih = elim (Bool-cases (str_eq x.callback_url s.callback_url)) [
      | inl e ↦ rw (e) (here e)
      | inr e ↦ rw (e) (
        λ url. ground (
          arith,
          ih.0 url,
          eq_iff x.callback_url url,
          eq_iff s.callback_url url,
          e,
          eq_iff x.callback_url s.callback_url,
        ),
        λ d. (
          ground (
            arith,
            ih.0 x.callback_url,
            d.0,
            e,
            eq_iff s.callback_url x.callback_url,
            eq_iff x.callback_url s.callback_url,
          ),
          ih.1 d.1,
        ),
      )
    ]

append_lem :
    (s : Subscriber) (xs : List Subscriber)
    → subscriber_at s.callback_url xs ≡ none
    → Replaced s xs (some (xs ++ s ∷ []))
append_lem s [] h = (λ url. refl, λ d. (refl, tt))
append_lem s (x ∷ rest) h = elim (Bool-cases (str_eq x.callback_url s.callback_url)) [
  | inl e ↦ absurd (ground (arith, h, e))
  | inr e ↦
      let ih = append_lem s rest (ground (arith, h, e)) in
      (
        λ url. ground (
          arith,
          ih.0 url,
          eq_iff x.callback_url url,
          eq_iff s.callback_url url,
          e,
          eq_iff x.callback_url s.callback_url,
        ),
        λ d. (
          ground (
            arith,
            ih.0 x.callback_url,
            d.0,
            e,
            eq_iff s.callback_url x.callback_url,
            eq_iff x.callback_url s.callback_url,
          ),
          ih.1 d.1,
        ),
      )
]

add_lem : (s : Subscriber) (xs : List Subscriber) → Replaced s xs (some (add s xs))
unfolding add
add_lem s xs = chosen (replace s xs) (replace_lem s xs)
  where
    chosen :
        (r : Option (List Subscriber))
        → Replaced s xs r
        → Replaced s xs (some (elim r [ none ↦ xs ++ s ∷ [] | some replaced ↦ replaced ]))
    chosen none h = append_lem s xs h
    chosen (some ys) h = h

remove_lem :
    (gone : String) (xs : List Subscriber)
    → let ys = (remove_by_callback gone xs).1 in
      ((url : String)
        → subscriber_at url ys ≡ (if str_eq gone url then none else subscriber_at url xs))
      × (Distinct xs → Distinct ys)
unfolding remove_by_callback
remove_lem gone [] = (λ url. ground arith, λ d. tt)
remove_lem gone (x ∷ rest) = elim (Bool-cases (str_eq x.callback_url gone)) [
  | inl e ↦
      let ih = remove_lem gone rest in
      rw (e) (
        λ url. ground (
          arith,
          ih.0 url,
          e,
          eq_iff x.callback_url gone,
          eq_iff gone url,
          eq_iff x.callback_url url,
        ),
        λ d. ih.1 d.1,
      )
  | inr e ↦
      let ih = remove_lem gone rest in
      rw (e) (
        λ url. ground (
          arith,
          ih.0 url,
          e,
          eq_iff x.callback_url gone,
          eq_iff gone url,
          eq_iff x.callback_url url,
        ),
        λ d. (ground (arith, ih.0 x.callback_url, d.0), ih.1 d.1),
      )
]

-- What happens to the registry
pub data Change : Type 0 where
  added : Subscriber → Change
  removed : String → Change

abbrev change : Change → List Subscriber → List Subscriber
change (added s) xs = add s xs
change (removed url) xs = (remove_by_callback url xs).1

abbrev pub run : List Change → List Subscriber → List Subscriber
run [] xs = xs
run (c ∷ cs) xs = run cs (change c xs)

-- The promise: the last registration of an address that was not removed since
abbrev pub latest : String → Option Subscriber → List Change → Option Subscriber
latest url current [] = current
latest url current (added s ∷ cs) = latest url (or_added s url current) cs
latest url current (removed gone ∷ cs) = latest url (if str_eq gone url then none else current) cs

run_lem :
    (url : String) (cs : List Change) (xs : List Subscriber)
    → Distinct xs
    → (subscriber_at url (run cs xs) ≡ latest url (subscriber_at url xs) cs) × Distinct (run cs xs)
run_lem url [] xs d = (refl, d)
run_lem url (added s ∷ cs) xs d =
    let step = add_lem s xs in
    let rest = run_lem url cs (add s xs) (step.1 d) in (rw (sym (step.0 url)) rest.0, rest.1)
run_lem url (removed gone ∷ cs) xs d =
    let step = remove_lem gone xs in
    let rest = run_lem url cs (remove_by_callback gone xs).1 (step.1 d) in
    (rw (sym (step.0 url)) rest.0, rest.1)

-- After any registrations and removals, an address has exactly the subscriber that registered it last
-- and was not removed since, and no address stands twice.
pub registry_refines :
    (url : String) (cs : List Change)
    → (subscriber_at url (run cs []) ≡ latest url none cs) × Distinct (run cs [])
registry_refines url cs = run_lem url cs [] tt
