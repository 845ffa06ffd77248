-- ===== src/CraftyEvents/Search.antt =====
-- Where in a payload the event is looked for, and which one is found.
use crafty_server_watcher.Common.{
  ℕ, zero, suc, ◌≤◌, ◌<◌, ◌≡◌, refl, ◌↔◌, ◌⊎◌, inl, inr, String, Option, Option-cases, none, some,
  List, [], ◌∷◌, ◌++◌, All, arith,
}
use crafty_server_watcher.Json.{
  Json, null, bool, num, str, arr, obj, Items, nil, cons, Fields, end, field, get, text,
}
use crafty_server_watcher.CraftyEvents.{
  levels, iter_strings, iter_items, iter_values, event_of, note, as_object, note_chunk, search,
  payload_of, parse_event, object_of,
}

-- A text stands in a value, this many containers deep.
mutual
  pub data At : ℕ → Json → String → Type 0 where
    here : {s : String} → At 0 (str s) s
    in_arr : {d : ℕ} {items : Items} {s : String} → AtItem d items s → At (suc d) (arr items) s
    in_obj : {d : ℕ} {fields : Fields} {s : String} → AtValue d fields s → At (suc d) (obj fields) s

  pub data AtItem : ℕ → Items → String → Type 0 where
    first : {d : ℕ} {v : Json} {rest : Items} {s : String} → At d v s → AtItem d (cons v rest) s
    later :
        {d : ℕ} {v : Json} {rest : Items} {s : String} → AtItem d rest s → AtItem d (cons v rest) s

  pub data AtValue : ℕ → Fields → String → Type 0 where
    value :
        {d : ℕ} {k : String} {v : Json} {rest : Fields} {s : String}
        → At d v s
        → AtValue d (field k v rest) s
    next :
        {d : ℕ} {k : String} {v : Json} {rest : Fields} {s : String}
        → AtValue d rest s
        → AtValue d (field k v rest) s

abbrev pub In : String → List String → Type 0
In s [] = ⊥
In s (x ∷ xs) = (s ≡ x) ⊎ In s xs

In-append_left : (s : String) (xs ys : List String) → In s xs → In s (xs ++ ys)
In-append_left s [] ys h = absurd h
In-append_left s (x ∷ xs) ys (inl e) = inl e
In-append_left s (x ∷ xs) ys (inr h) = inr (In-append_left s xs ys h)

In-append_right : (s : String) (xs ys : List String) → In s ys → In s (xs ++ ys)
In-append_right s [] ys h = h
In-append_right s (x ∷ xs) ys h = inr (In-append_right s xs ys h)

mutual
  unfolding iter_strings

  seen : (k d : ℕ) (v : Json) (s : String) → At d v s → d < k → In s (iter_strings k v)
  seen zero d v s at h = absurd (omega arith)
  seen (suc k) _ _ s here h = inl refl
  seen (suc k) _ _ s (in_arr {d} {items} at) h = seen_item k d items s at (omega arith)
  seen (suc k) _ _ s (in_obj {d} {fields} at) h = seen_value k d fields s at (omega arith)

  seen_item :
      (k d : ℕ) (items : Items) (s : String) → AtItem d items s → d < k → In s (iter_items k items)
  seen_item k d _ s (first {v = v} {rest = rest} at) h =
      In-append_left s (iter_strings k v) (iter_items k rest) (seen k d v s at h)
  seen_item k d _ s (later {v = v} {rest = rest} at) h =
      In-append_right s (iter_strings k v) (iter_items k rest) (seen_item k d rest s at h)

  seen_value :
      (k d : ℕ) (fields : Fields) (s : String)
      → AtValue d fields s
      → d < k
      → In s (iter_values k fields)
  seen_value k d _ s (value {v = v} {rest = rest} at) h =
      In-append_left s (iter_strings k v) (iter_values k rest) (seen k d v s at h)
  seen_value k d _ s (next {v = v} {rest = rest} at) h =
      In-append_right s (iter_strings k v) (iter_values k rest) (seen_value k d rest s at h)

In-append_cases : (s : String) (xs ys : List String) → In s (xs ++ ys) → In s xs ⊎ In s ys
In-append_cases s [] ys h = inr h
In-append_cases s (x ∷ xs) ys (inl e) = inl (inl e)
In-append_cases s (x ∷ xs) ys (inr h) = elim (In-append_cases s xs ys h) [
  | inl p ↦ inl (inr p)
  | inr q ↦ inr q
]

mutual
  unfolding iter_strings

  placed : (k : ℕ) (v : Json) (s : String) → In s (iter_strings k v) → (d : ℕ) × (d < k) × At d v s
  placed zero v s h = absurd h
  placed (suc k) null s h = absurd h
  placed (suc k) (bool b) s h = absurd h
  placed (suc k) (num n) s h = absurd h
  placed (suc k) (str t) s (inl e) = (0, omega arith, rw e here)
  placed (suc k) (str t) s (inr h) = absurd h
  placed (suc k) (arr items) s h =
      let (d, l, at) = placed_item k items s h in (suc d, omega (arith, l), in_arr at)
  placed (suc k) (obj fields) s h =
      let (d, l, at) = placed_value k fields s h in (suc d, omega (arith, l), in_obj at)

  placed_item :
      (k : ℕ) (items : Items) (s : String)
      → In s (iter_items k items)
      → (d : ℕ) × (d < k) × AtItem d items s
  placed_item k nil s h = absurd h
  placed_item k (cons v rest) s h =
      elim (In-append_cases s (iter_strings k v) (iter_items k rest) h) [
        | inl p ↦ let (d, l, at) = placed k v s p in (d, l, first at)
        | inr q ↦ let (d, l, at) = placed_item k rest s q in (d, l, later at)
      ]

  placed_value :
      (k : ℕ) (fields : Fields) (s : String)
      → In s (iter_values k fields)
      → (d : ℕ) × (d < k) × AtValue d fields s
  placed_value k end s h = absurd h
  placed_value k (field key v rest) s h =
      elim (In-append_cases s (iter_strings k v) (iter_values k rest) h) [
        | inl p ↦ let (d, l, at) = placed k v s p in (d, l, value at)
        | inr q ↦ let (d, l, at) = placed_value k rest s q in (d, l, next at)
      ]

-- The texts that are looked through are exactly those that stand at most six containers deep in the
-- payload.
pub iter_strings_iff :
    (v : Json) (s : String) → In s (iter_strings levels v) ↔ ((d : ℕ) × (d ≤ 6) × At d v s)
iter_strings_iff v s = (
  λ h. let (d, l, at) = placed levels v s h in (d, omega (arith, l), at),
  λ (d, l, at). seen levels d v s at (omega (arith, l)),
)

module _ (loads : String → Option Json) (id event : String) where
  -- A text that is an object tells of this server and this event.
  abbrev pub Tells : Fields → Type 0
  Tells object = (text (get object "server_id") ≡ some id) × (text (event_of object) ≡ some event)

  abbrev pub Agrees : String → Type 0
  Agrees s = (object : Fields) → as_object loads s ≡ some object → Tells object

  search_done :
      (chunks : List String) → search loads chunks (some id, some event) ≡ (some id, some event)
  unfolding search note
  search_done [] = refl
  search_done (chunk ∷ rest) = elim (Option-cases (as_object loads chunk)) [
    | inl e ↦ rw e (search_done rest)
    | inr (object, e) ↦ rw e (search_done rest)
  ]

  note_done :
      (object : Option Fields)
      → note_chunk loads object (some id, some event) ≡ (some id, some event)
  unfolding note_chunk note
  note_done none = refl
  note_done (some object) = refl

  search_finds :
      (chunks : List String) (chunk : String) (object : Fields)
      → All Agrees chunks
      → In chunk chunks
      → as_object loads chunk ≡ some object
      → search loads chunks (none, none) ≡ (some id, some event)
  unfolding search note
  search_finds [] chunk object a h e = absurd h
  search_finds (c ∷ rest) chunk object (q, a) h e = elim (Option-cases (as_object loads c)) [
    | inl none_here ↦ elim h [
      | inl same ↦ cc
      | inr more ↦ rw none_here (search_finds rest chunk object a more e)
    ]
    | inr (found, here_found) ↦
        rw (here_found, (q found here_found).0, (q found here_found).1) (search_done rest)
  ]

  agreeing_everywhere :
      (chunks : List String) → ((s : String) → In s chunks → Agrees s) → All Agrees chunks
  agreeing_everywhere [] h = tt
  agreeing_everywhere (c ∷ rest) h = (h c (inl refl), agreeing_everywhere rest (λ s q. h s (inr q)))

  -- If some text at most six containers deep in the payload is an object, and all such texts there that
  -- are objects tell of the same server and event, then these are found, whatever the envelope is and
  -- whichever ids are known.
  pub template_is_found :
      (body : String) (known : List String) (payload : Json) (d : ℕ) (chunk : String)
      (object : Fields)
      → payload_of loads body ≡ some payload
      → d ≤ 6
      → At d payload chunk
      → as_object loads chunk ≡ some object
      → ((e : ℕ) (s : String) → e ≤ 6 → At e payload s → Agrees s)
      → parse_event loads body known ≡ some (record { server_id = id; event = event })
  unfolding parse_event
  template_is_found body known payload d chunk object p l at o agree =
      let all = agreeing_everywhere (iter_strings levels payload) (λ s q.
        let (e, l', at') = placed levels payload s q in agree e s (omega (arith, l')) at') in
      let found : search loads (iter_strings levels payload) (none, none) ≡ (some id, some event) =
        search_finds (iter_strings levels payload) chunk object all
          (seen levels d payload chunk at (omega arith)) o in
      rw p (rw found (rw (note_done (object_of (some payload))) refl))
