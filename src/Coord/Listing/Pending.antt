-- ===== src/Coord/Listing/Pending.antt =====
-- list_pending_pcaps of src/coord.rs: which files it lists.
use rust_pcaprune.Prelude.{
  ℕ, ◌+◌, ◌-◌, ◌≤◌, ◌≡◌, ◌≢◌, refl, sym, ap, ◌∙◌, Bool, true, false, not, ◌||◌, List, [], ◌∷◌,
  Option, none, some, ◌⊎◌, ◌↔◌, inl, inr, ltb, length, drop, get_or, get_or-drop, length-drop,
  Bytes, if◌then◌else◌, arith, Bool-cases, le→ltb_false, ltb-false, subst,
}
use mathlib.Core.List.{Memᴰ}
use mathlib.Core.Option
use rust_pcaprune.Disk.{Disk, exists, bytes_eq-eq}
use rust_pcaprune.Coord.{is_marked, tmp_extension}
use rust_pcaprune.Coord.Listing.{
  DirEntry, entry_path, ends_with, pcap_extension, str_or_empty, too_young, pushes, push_if, gather,
}

ends_with-suffix :
    (suffix name : Bytes) (i : ℕ)
    → ends_with suffix name ≡ true
    → (length suffix ≤ length name)
      × (get_or name (length name - length suffix + i) 0 ≡ get_or suffix i 0)
unfolding ends_with
ends_with-suffix suffix name i e =
    let k = length name - length suffix in
    let q = bytes_eq-eq (drop k name) suffix e in
    (
      omega (arith, ap (λ (b : Bytes). length b) q, length-drop k name),
      sym (get_or-drop k name i 0) ∙ ap (λ (b : Bytes). get_or b i 0) q,
    )

-- A name that ends with `.pcap` does not end with `.pcap.tmp`.
pub pcap_not_tmp :
    (name : Bytes) → ends_with pcap_extension name ≡ true → ends_with tmp_extension name ≡ false
pcap_not_tmp name e = elim (Bool-cases (ends_with tmp_extension name)) [
  | inr f ↦ f
  | inl f ↦
      let (l, a) = ends_with-suffix pcap_extension name 3 e in
      let (l', m) = ends_with-suffix tmp_extension name 7 f in
      let same : length name - 5 + 3 ≡ length name - 9 + 7 = omega arith in
      let clash = sym a ∙ ap (λ i. get_or name i 0) same ∙ m in absurd (omega arith)
]

-- Old enough for `--age-minutes`, where it is given.
abbrev pub OldEnough : Option ℕ → Option ℕ → Type 0
OldEnough none mtime = Unit
OldEnough (some cutoff) none = ⊥
OldEnough (some cutoff) (some mtime) = mtime ≤ cutoff

-- A regular file whose name is text that ends with `.pcap`, which is old enough and has no marker.
abbrev pub IsPending : List Bytes → Option ℕ → Disk → DirEntry → Type 0
IsPending dir cutoff d entry =
    (exists d (entry_path dir entry) ≡ true)
    × (ends_with pcap_extension (str_or_empty entry.name) ≡ true)
    × OldEnough cutoff entry.mtime
    × (is_marked d (entry_path dir entry) ≡ false)

some_injective {ℓ} : {A : Type ℓ} (a b : A) → ◌≡◌ {A = Option A} (some a) (some b) → a ≡ b
some_injective a b e = cc

too_young_iff :
    (cutoff mtime : Option ℕ) → (too_young cutoff mtime ≡ some false) ↔ OldEnough cutoff mtime
unfolding too_young
too_young_iff none mtime = (λ e. tt, λ u. refl)
too_young_iff (some c) none = (λ e. cc, λ x. absurd x)
too_young_iff (some c) (some t) =
    (λ e. ltb-false c t (some_injective (ltb c t) false e), λ l. ap some (le→ltb_false c t l))

-- The guards of the loop on what they test.
verdict : (there captured temporary : Bool) → Option Bool → (marked : Bool) → Option Bool
verdict false captured temporary young marked = some false
verdict true false temporary young marked = some false
verdict true true true young marked = some false
verdict true true false none marked = none
verdict true true false (some true) marked = some false
verdict true true false (some false) marked = some (not marked)

pushes-verdict :
    (dir : List Bytes) (cutoff : Option ℕ) (d : Disk) (entry : DirEntry)
    → pushes dir cutoff d entry
      ≡ verdict
          (exists d (entry_path dir entry))
          (ends_with pcap_extension (str_or_empty entry.name))
          (ends_with tmp_extension (str_or_empty entry.name))
          (too_young cutoff entry.mtime)
          (is_marked d (entry_path dir entry))
unfolding pushes verdict
pushes-verdict dir cutoff d entry =
    go (exists d (entry_path dir entry)) (ends_with pcap_extension (str_or_empty entry.name))
      (ends_with tmp_extension (str_or_empty entry.name)) (too_young cutoff entry.mtime)
      (is_marked d (entry_path dir entry))
  where
    go :
        (there captured temporary : Bool) (young : Option Bool) (marked : Bool)
        → (if not there
            then some false
            else if not captured || temporary
            then some false
            else elim young [
              | none ↦ none
              | some true ↦ some false
              | some false ↦ some (not marked)
            ])
          ≡ verdict there captured temporary young marked
    go false captured temporary young marked = refl
    go true false temporary young marked = refl
    go true true true young marked = refl
    go true true false none marked = refl
    go true true false (some true) marked = refl
    go true true false (some false) marked = refl

verdict_iff :
    (there captured temporary : Bool) (young : Option Bool) (marked : Bool)
    → (verdict there captured temporary young marked ≡ some true) ↔ (
        (there ≡ true)
        × (captured ≡ true)
        × (temporary ≡ false)
        × (young ≡ some false)
        × (marked ≡ false))
unfolding verdict
verdict_iff false captured temporary young marked = (λ e. cc, λ (a, _, _, _, _). cc)
verdict_iff true false temporary young marked = (λ e. cc, λ (_, a, _, _, _). cc)
verdict_iff true true true young marked = (λ e. cc, λ (_, _, a, _, _). cc)
verdict_iff true true false none marked = (λ e. cc, λ (_, _, _, a, _). cc)
verdict_iff true true false (some true) marked = (λ e. cc, λ (_, _, _, a, _). cc)
verdict_iff true true false (some false) true = (λ e. cc, λ (_, _, _, _, a). cc)
verdict_iff true true false (some false) false = (λ e. (refl, refl, refl, refl, refl), λ x. refl)

pushes_iff :
    (dir : List Bytes) (cutoff : Option ℕ) (d : Disk) (entry : DirEntry)
    → (pushes dir cutoff d entry ≡ some true) ↔ IsPending dir cutoff d entry
pushes_iff dir cutoff d entry =
    let name = str_or_empty entry.name in
    let (to, from) =
      verdict_iff (exists d (entry_path dir entry)) (ends_with pcap_extension name)
        (ends_with tmp_extension name) (too_young cutoff entry.mtime)
        (is_marked d (entry_path dir entry)) in
    let same = pushes-verdict dir cutoff d entry in
    (
      λ e.
          let (a, b, _, y, m) = to (sym same ∙ e) in
          (a, b, (too_young_iff cutoff entry.mtime).0 y, m),
      λ (a, b, o, m).
          same ∙ from (a, b, pcap_not_tmp name b, (too_young_iff cutoff entry.mtime).1 o, m),
    )

-- The loop behind an entry that was read.
pub gather-cons :
    (dir : List Bytes) (cutoff : Option ℕ) (d : Disk) (entry : DirEntry)
    (entries : List (Option DirEntry)) (files : List DirEntry)
    → gather dir cutoff d (some entry ∷ entries) ≡ some files
    → (b : Bool) × (rest : List DirEntry) × (pushes dir cutoff d entry ≡ some b)
      × (gather dir cutoff d entries ≡ some rest)
      × (files ≡ push_if b entry rest)
unfolding gather
gather-cons dir cutoff d entry entries files q =
    go (pushes dir cutoff d entry) (gather dir cutoff d entries) q
  where
    go :
        (v : Option Bool) (r : Option (List DirEntry))
        → elim v [ none ↦ none | some b ↦ Option.map (push_if b entry) r ] ≡ some files
        → (b : Bool) × (rest : List DirEntry) × (v ≡ some b)
          × (r ≡ some rest)
          × (files ≡ push_if b entry rest)
    go none r e = cc
    go (some b) none e = cc
    go (some b) (some rest) e =
        (b, rest, refl, refl, sym (some_injective (push_if b entry rest) files e))

push_if_iff :
    (b : Bool) (entry e : DirEntry) (rest : List DirEntry) (P : Type 0)
    → (Memᴰ e rest ↔ P)
    → Memᴰ e (push_if b entry rest) ↔ (((e ≡ entry) × (b ≡ true)) ⊎ P)
push_if_iff true entry e rest P (to, from) = (
  λ m. elim m [ Memᴰ.head q ↦ inl (q, refl) | Memᴰ.tail n ↦ inr (to n) ],
  λ x. elim x [ inl (q, _) ↦ Memᴰ.head q | inr y ↦ Memᴰ.tail (from y) ],
)
push_if_iff false entry e rest P (to, from) =
    (λ m. inr (to m), λ x. elim x [ inl (_, q) ↦ cc | inr y ↦ from y ])

-- What was pushed, of which entries.
pub gather_iff :
    (dir : List Bytes) (cutoff : Option ℕ) (d : Disk) (entries : List (Option DirEntry))
    (files : List DirEntry) (e : DirEntry)
    → gather dir cutoff d entries ≡ some files
    → Memᴰ e files ↔ (Memᴰ (some e) entries × IsPending dir cutoff d e)
unfolding gather
gather_iff dir cutoff d [] files e q =
    let nothing = some_injective [] files q in
    (λ m. elim (subst (Memᴰ e) (sym nothing) m) [ ], λ (m, _). elim m [ ])
gather_iff dir cutoff d (none ∷ entries) files e q = cc
gather_iff dir cutoff d (some entry ∷ entries) files e q =
    let (b, rest, v, g, f) = gather-cons dir cutoff d entry entries files q in
    let (to, from) =
      push_if_iff b entry e rest (Memᴰ (some e) entries × IsPending dir cutoff d e)
        (gather_iff dir cutoff d entries rest e g) in
    (
      λ m. elim (to (subst (Memᴰ e) f m)) [
        | inl (same, t) ↦ (
          Memᴰ.head (ap some same),
          subst (IsPending dir cutoff d) (sym same)
              ((pushes_iff dir cutoff d entry).0 (v ∙ ap some t)),
        )
        | inr (n, p) ↦ (Memᴰ.tail n, p)
      ],
      λ (m, p). subst (Memᴰ e) (sym f) (
          from (elim m [
            | Memᴰ.head h ↦
                let same = some_injective e entry h in
                inl (
                  same,
                  some_injective b true (
                      sym v
                      ∙ (pushes_iff dir cutoff d entry).1 (subst (IsPending dir cutoff d) same p)),
                )
            | Memᴰ.tail n ↦ inr (n, p)
          ])),
    )

-- Each entry could be read, and its time where one is asked for.
abbrev pub Readable : Option ℕ → List (Option DirEntry) → Type 0
Readable cutoff [] = Unit
Readable cutoff (none ∷ entries) = ⊥
Readable cutoff (some entry ∷ entries) =
    (too_young cutoff entry.mtime ≢ none) × Readable cutoff entries

verdict-some :
    (there captured temporary : Bool) (young : Option Bool) (marked : Bool)
    → young ≢ none
    → (b : Bool) × (verdict there captured temporary young marked ≡ some b)
unfolding verdict
verdict-some false captured temporary young marked h = (false, refl)
verdict-some true false temporary young marked h = (false, refl)
verdict-some true true true young marked h = (false, refl)
verdict-some true true false none marked h = absurd (h refl)
verdict-some true true false (some true) marked h = (false, refl)
verdict-some true true false (some false) marked h = (not marked, refl)

pub gather-some :
    (dir : List Bytes) (cutoff : Option ℕ) (d : Disk) (entries : List (Option DirEntry))
    → Readable cutoff entries
    → (files : List DirEntry) × (gather dir cutoff d entries ≡ some files)
unfolding gather
gather-some dir cutoff d [] h = ([], refl)
gather-some dir cutoff d (none ∷ entries) h = absurd h
gather-some dir cutoff d (some entry ∷ entries) (y, h) =
    let path = entry_path dir entry in
    let name = str_or_empty entry.name in
    let (rest, g) = gather-some dir cutoff d entries h in
    let (b, v) =
      verdict-some (exists d path) (ends_with pcap_extension name) (ends_with tmp_extension name)
        (too_young cutoff entry.mtime) (is_marked d path) y in
    (push_if b entry rest, rw (pushes-verdict dir cutoff d entry ∙ v, g, gather) refl)
