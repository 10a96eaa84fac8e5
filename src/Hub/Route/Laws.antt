-- ===== src/Hub/Route/Laws.antt =====
-- What hub4com/route.cpp does to the routes, as a set of pairs with their numbers.
use com0com.Base.{
  ℕ, zero, suc, Bool, true, false, not, nonzero, ◌&&◌, ◌||◌, [], ◌∷◌, length, ltb, ◌==◌, ◌≤◌, ◌<◌,
  ◌+◌, if◌then◌else◌, Option, none, some, ◌≡◌, refl, sym, ap, ◌∙◌, arith, inl, inr, Bool-cases,
  Option-cases,
}
use com0com.Hub.Route.{
  PortPair, PortMap, find_from, find_pair, insert, erase, add_pair, add_route, add_routes, found,
}

abbrev pub same : PortPair → PortPair → Bool
same p q = p.0 == q.0 && p.1 == q.1

-- How often a pair is in the map.
abbrev pub count : PortMap → PortPair → ℕ
count [] q = 0
count (p ∷ map) q = (if same p q then 1 else 0) + count map q

abbrev pub has : PortMap → PortPair → Bool
has map q = nonzero (count map q)

-- The keys are in order, none under `k`.
abbrev pub SortedFrom : ℕ → PortMap → Type 0
SortedFrom k [] = Unit {0}
SortedFrom k (p ∷ map) = (k ≤ p.0) × SortedFrom p.0 map

abbrev pub Sorted : PortMap → Type 0
Sorted map = SortedFrom 0 map

SortedFrom-weaken : (j k : ℕ) (map : PortMap) → j ≤ k → SortedFrom k map → SortedFrom j map
SortedFrom-weaken j k [] h s = tt
SortedFrom-weaken j k (p ∷ map) h s = (omega (arith, s.0), s.1)

-- Behind a larger key nothing is found, and nothing is there.
pub count-past :
    (k : ℕ) (map : PortMap) (q : PortPair) → SortedFrom k map → q.0 < k → count map q ≡ 0
count-past k [] q s h = refl
count-past k (p ∷ map) q s h = ground (arith, s.0, count-past p.0 map q s.1 (omega (arith, s.0)))

-- The two walks find a pair exactly if it is there.
found-suc : (o : Option ℕ) → found (elim o [ none ↦ none | some i ↦ some (suc i) ]) ≡ found o
found-suc none = refl
found-suc (some i) = refl

found-find_from :
    (map : PortMap) (q : PortPair) → SortedFrom q.0 map → found (find_from map q) ≡ has map q
unfolding find_from
found-find_from [] q s = refl
found-find_from (p ∷ map) q s = elim (Bool-cases (p.0 == q.0)) [
  | inl e ↦
      let ih = found-find_from map q (SortedFrom-weaken q.0 p.0 map s.0 s.1) in
      ground (arith, ih, found-suc (find_from map q))
  | inr e ↦ ground (arith, count-past p.0 map q s.1 (ground (arith, s.0)))
]

pub found-find_pair :
    (k : ℕ) (map : PortMap) (q : PortPair) → SortedFrom k map → found (find_pair map q) ≡ has map q
unfolding find_pair
found-find_pair k [] q s = refl
found-find_pair k (p ∷ map) q s = elim (Bool-cases (p.0 == q.0)) [
  | inl e ↦ let o : q.0 ≤ p.0 = ground arith in ground (arith, found-find_from (p ∷ map) q (o, s.1))
  | inr e ↦ ground (arith, found-find_pair p.0 map q s.1, found-suc (find_pair map q))
]

abbrev one_if : Bool → ℕ
one_if b = if b then 1 else 0

-- What stands at the index that the walks give is the pair.
find_from-erase :
    (map : PortMap) (q r : PortPair) (i : ℕ)
    → find_from map q ≡ some i
    → count map r ≡ one_if (same q r) + count (erase map i) r
unfolding find_from erase
find_from-erase [] q r i e = cc e
find_from-erase (p ∷ map) q r zero e = elim (Option-cases (find_from map q)) [
  | inl n ↦ ground arith
  | inr (j, n) ↦ ground arith
]
find_from-erase (p ∷ map) q r (suc i) e = elim (Option-cases (find_from map q)) [
  | inl n ↦ ground arith
  | inr (j, n) ↦
      let h : j ≡ i = ground arith in ground (arith, h, find_from-erase map q r i (n ∙ ap some h))
]

find_pair-erase :
    (map : PortMap) (q r : PortPair) (i : ℕ)
    → find_pair map q ≡ some i
    → count map r ≡ one_if (same q r) + count (erase map i) r
unfolding find_pair erase
find_pair-erase [] q r i e = cc e
find_pair-erase (p ∷ map) q r i e = elim (Bool-cases (p.0 == q.0)) [
  | inl b ↦
      let f : find_from (p ∷ map) q ≡ some i = ground arith in find_from-erase (p ∷ map) q r i f
  | inr b ↦ elim (Option-cases (find_pair map q)) [
    | inl n ↦ ground arith
    | inr (j, n) ↦
        let h : i ≡ suc j = ground arith in rw h (ground (arith, find_pair-erase map q r j n))
  ]
]

pub count-insert :
    (q r : PortPair) (map : PortMap) → count (insert q map) r ≡ one_if (same q r) + count map r
unfolding insert
count-insert q r [] = refl
count-insert q r (p ∷ map) = ground (arith, count-insert q r map)

pub Sorted-insert :
    (k : ℕ) (q : PortPair) (map : PortMap)
    → k ≤ q.0
    → SortedFrom k map
    → SortedFrom k (insert q map)
unfolding insert
Sorted-insert k q [] h s = (h, tt)
Sorted-insert k q (p ∷ map) h s = elim (Bool-cases (ltb q.0 p.0)) [
  | inl b ↦ rw b (h, (ground arith, s.1))
  | inr b ↦ rw b (s.0, Sorted-insert p.0 q map (ground arith) s.1)
]

Sorted-erase : (k : ℕ) (map : PortMap) (i : ℕ) → SortedFrom k map → SortedFrom k (erase map i)
unfolding erase
Sorted-erase k [] i s = tt
Sorted-erase k (p ∷ map) zero s = SortedFrom-weaken k p.0 map s.0 s.1
Sorted-erase k (p ∷ map) (suc i) s = (s.0, Sorted-erase p.0 map i s.1)

count-le : (map : PortMap) (q : PortPair) → count map q ≤ length map
count-le [] q = omega arith
count-le (p ∷ map) q = ground (arith, count-le map q)

-- What a route's call leaves.
abbrev pub Routes : (PortPair → ℕ) → Option PortMap → Type 0
Routes c none = ⊥
Routes c (some map) = Sorted map × ((r : PortPair) → count map r ≡ c r)

abbrev pub removed : PortPair → PortMap → PortPair → ℕ
removed q map r = if same q r then 0 else count map r

abbrev pub added : PortPair → PortMap → PortPair → ℕ
added q map r = if same q r && not (has map q) then 1 else count map r

pub has_same : (map : PortMap) (q r : PortPair) → same q r ≡ true → count map q ≡ count map r
has_same [] q r e = refl
has_same (p ∷ map) q r e = ground (arith, has_same map q r e)

Routes-ext :
    (c d : PortPair → ℕ) (o : Option PortMap)
    → ((r : PortPair) → c r ≡ d r)
    → Routes c o
    → Routes d o
Routes-ext c d none e h = h
Routes-ext c d (some map) e h = (h.0, λ r. h.1 r ∙ e r)

same_self : (q : PortPair) → same q q ≡ true
same_self q = ground arith

removed-absent :
    (map : PortMap) (q r : PortPair) → has map q ≡ false → count map r ≡ removed q map r
removed-absent map q r z = elim (Bool-cases (same q r)) [
  | inl e ↦ let c = has_same map q r e in let d : count map q ≡ 0 = ground arith in rw e (sym c ∙ d)
  | inr e ↦ rw e refl
]

removed-erase :
    (map : PortMap) (q r : PortPair) (i : ℕ)
    → find_pair map q ≡ some i
    → removed q (erase map i) r ≡ removed q map r
removed-erase map q r i e = elim (Bool-cases (same q r)) [
  | inl f ↦ rw f refl
  | inr f ↦
      let c : count map r ≡ 0 + count (erase map i) r =
        find_pair-erase map q r i e ∙ ap (λ b. one_if b + count (erase map i) r) f in
      rw f (omega (arith, c))
]

added-absent :
    (map : PortMap) (q r : PortPair) → has map q ≡ false → count (insert q map) r ≡ added q map r
added-absent map q r z = elim (Bool-cases (same q r)) [
  | inl e ↦
      let c = has_same map q r e in
      let d : count map q ≡ 0 = ground arith in
      count-insert q r map ∙ rw (e, z) (omega (arith, c, d))
  | inr e ↦ count-insert q r map ∙ rw e (omega arith)
]

add_pair-remove :
    (n : ℕ) (map : PortMap) (q : PortPair)
    → count map q < n
    → Sorted map
    → Routes (removed q map) (add_pair n map q true)
unfolding add_pair
add_pair-remove zero map q h s = absurd (omega arith)
add_pair-remove (suc n) map q h s = elim (Option-cases (find_pair map q)) [
  | inl e ↦
      let z : has map q ≡ false = sym (found-find_pair 0 map q s) ∙ ap found e in
      rw (e, add_pair) (s, λ r. removed-absent map q r z)
  | inr (i, e) ↦
      let c : count map q ≡ 1 + count (erase map i) q =
        find_pair-erase map q q i e ∙ ap (λ b. one_if b + count (erase map i) q) (same_self q) in
      rw (e, add_pair)
        (Routes-ext (removed q (erase map i)) (removed q map) (add_pair n (erase map i) q true)
          (λ r. removed-erase map q r i e)
          (add_pair-remove n (erase map i) q (omega (arith, c)) (Sorted-erase 0 map i s)))
]

add_pair-add :
    (n : ℕ) (map : PortMap) (q : PortPair)
    → Sorted map
    → Routes (added q map) (add_pair (suc n) map q false)
unfolding add_pair
add_pair-add n map q s = elim (Option-cases (find_pair map q)) [
  | inl e ↦
      let z : has map q ≡ false = sym (found-find_pair 0 map q s) ∙ ap found e in
      rw (e, add_pair) (Sorted-insert 0 q map (omega arith) s, λ r. added-absent map q r z)
  | inr (i, e) ↦
      let z : has map q ≡ true = sym (found-find_pair 0 map q s) ∙ ap found e in
      rw (e, add_pair) (s, λ r. ground (arith, z))
]

-- Removing a route from a map in the order of its keys takes every copy of the pair, whatever the echo option says, and no other pair.
pub add_route-remove :
    (map : PortMap) (from to : ℕ) (no_echo : Bool)
    → Sorted map
    → Routes (removed (from, to) map) (add_route map from to true no_echo)
unfolding add_route
add_route-remove map from to no_echo s =
    let h : (not (from == to) || not no_echo || true) ≡ true = ground arith in
    rw h
      (add_pair-remove (suc (length map)) map (from, to) (omega (arith, count-le map (from, to))) s)

-- Adding a route to a map in the order of its keys gives one copy of the pair where there is none, and changes nothing else; from a
-- port to itself that is only so without the echo option's ban.
pub add_route-add :
    (map : PortMap) (from to : ℕ) (no_echo : Bool)
    → Sorted map
    → Routes
        (λ r. if from == to && no_echo then count map r else added (from, to) map r)
        (add_route map from to false no_echo)
unfolding add_route
add_route-add map from to no_echo s = elim (Bool-cases (from == to && no_echo)) [
  | inl e ↦
      let h : (not (from == to) || not no_echo || false) ≡ false = ground arith in
      rw (h, e) (s, λ r. refl)
  | inr e ↦
      let h : (not (from == to) || not no_echo || false) ≡ true = ground arith in
      rw (h, e) (add_pair-add (length map) map (from, to) s)
]

abbrev pub without : PortMap → PortMap → PortPair → ℕ
without no_map map r = if has no_map r then 0 else count map r

without-cons :
    (p r : PortPair) (no_map map m : PortMap)
    → count m r ≡ removed p map r
    → without no_map m r ≡ without (p ∷ no_map) map r
without-cons p r no_map map m h = ground (arith, h)

rest_of-Routes :
    (p : PortPair) (no_map map : PortMap) (o : Option PortMap)
    → Routes (removed p map) o
    → ((m : PortMap) → Sorted m → Routes (without no_map m) (add_routes m no_map true))
    → Routes (without (p ∷ no_map) map) (elim o [ none ↦ none | some m ↦ add_routes m no_map true ])
rest_of-Routes p no_map map none h ih = h
rest_of-Routes p no_map map (some m) (sm, c) ih =
    Routes-ext (without no_map m) (without (p ∷ no_map) map) (add_routes m no_map true)
      (λ r. without-cons p r no_map map m (c r)) (ih m sm)

-- Removing the routes of a second map from one in the order of its keys takes out exactly its pairs.
pub add_routes-remove :
    (map no_map : PortMap)
    → Sorted map
    → Routes (λ r. if has no_map r then 0 else count map r) (add_routes map no_map true)
unfolding add_routes
add_routes-remove map [] s = (s, λ r. refl)
add_routes-remove map (p ∷ no_map) s =
    rest_of-Routes p no_map map (add_pair (suc (length map)) map p true)
      (add_pair-remove (suc (length map)) map p (omega (arith, count-le map p)) s)
      (λ m sm. add_routes-remove m no_map sm)
