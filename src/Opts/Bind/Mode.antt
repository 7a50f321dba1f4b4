-- ===== src/Opts/Bind/Mode.antt =====
-- What an accepted bind mode sets.
use pouch.Prelude.{
  ℕ, suc, ◌+◌, ◌≤◌, ◌≡◌, Bool, true, false, ◌&&◌, ◌||◌, Bool-cases, inl, inr, Option-cases, some,
  List, [], ◌∷◌, map, Text, str, text_eq, text_eq_iff, subst, sym, ap, not, ◌∙◌, refl, split, ltb,
  if◌then◌else◌, arith,
}
use pouch.Opts.Bind.{
  MountPoint, Word, default_word, ro_word, rw_word, label_word, nocopy_word, unknown_word,
  replace_word, propagation_word, word_of, Counts, read_words, is_repeated, finish, no_counts,
  parse_bind_mode,
}

-- how many words of a list a test holds for
abbrev pub count : (Word → Bool) → List Word → ℕ
count f [] = 0
count f (w ∷ ws) = if f w then suc (count f ws) else count f ws

abbrev pub is_ro : Word → Bool
is_ro ro_word = true
is_ro _ = false

abbrev pub is_access : Word → Bool
is_access ro_word = true
is_access rw_word = true
is_access _ = false

abbrev pub is_nocopy : Word → Bool
is_nocopy nocopy_word = true
is_nocopy _ = false

abbrev pub is_unknown : Word → Bool
is_unknown unknown_word = true
is_unknown _ = false

abbrev pub is_zero : ℕ → Bool
is_zero n = ltb n 1

read_words-access :
    (ws : List Word) (mp mp' : MountPoint) (n n' : Counts)
    → read_words ws (mp, n) ≡ some (mp', n')
    → (n'.rw_mode ≡ n.rw_mode + count is_access ws)
      × (n'.copy_mode ≡ n.copy_mode + count is_nocopy ws)
      × (count is_unknown ws ≡ 0)
unfolding read_words
read_words-access [] mp mp' n n' h = ground (arith, h)
read_words-access (default_word ∷ ws) mp mp' n n' h =
    ground (arith, read_words-access ws _ mp' _ n' h)
read_words-access (ro_word ∷ ws) mp mp' n n' h = ground (arith, read_words-access ws _ mp' _ n' h)
read_words-access (rw_word ∷ ws) mp mp' n n' h = ground (arith, read_words-access ws _ mp' _ n' h)
read_words-access (replace_word m ∷ ws) mp mp' n n' h =
    ground (arith, read_words-access ws _ mp' _ n' h)
read_words-access (label_word ∷ ws) mp mp' n n' h =
    ground (arith, read_words-access ws _ mp' _ n' h)
read_words-access (nocopy_word ∷ ws) mp mp' n n' h =
    ground (arith, read_words-access ws _ mp' _ n' h)
read_words-access (propagation_word m ∷ ws) mp mp' n n' h =
    ground (arith, read_words-access ws _ mp' _ n' h)
read_words-access (unknown_word ∷ ws) mp mp' n n' h = ground (arith, h)

ro_is_access : (ws : List Word) → count is_ro ws ≤ count is_access ws
ro_is_access [] = omega arith
ro_is_access (w ∷ ws) = ground (arith, ro_is_access ws)

read_words-flags :
    (ws : List Word) (mp mp' : MountPoint) (n n' : Counts)
    → read_words ws (mp, n) ≡ some (mp', n')
    → count is_access ws ≤ 1
    → (mp'.rw ≡ (if ltb 0 (count is_ro ws) then false else mp.rw || ltb 0 (count is_access ws)))
      × (mp'.copy_data ≡ (mp.copy_data && is_zero (count is_nocopy ws)))
unfolding read_words
read_words-flags [] mp mp' n n' h l = ground (arith, h)
read_words-flags (default_word ∷ ws) mp mp' n n' h l =
    ground (arith, read_words-flags ws _ mp' _ n' h l)
read_words-flags (ro_word ∷ ws) mp mp' n n' h l =
    ground (arith, l, ro_is_access ws, read_words-flags ws _ mp' _ n' h (omega (arith, l)))
read_words-flags (rw_word ∷ ws) mp mp' n n' h l =
    ground (arith, l, ro_is_access ws, read_words-flags ws _ mp' _ n' h (omega (arith, l)))
read_words-flags (replace_word m ∷ ws) mp mp' n n' h l =
    ground (arith, read_words-flags ws _ mp' _ n' h l)
read_words-flags (label_word ∷ ws) mp mp' n n' h l =
    ground (arith, read_words-flags ws _ mp' _ n' h l)
read_words-flags (nocopy_word ∷ ws) mp mp' n n' h l =
    ground (arith, read_words-flags ws _ mp' _ n' h l)
read_words-flags (propagation_word m ∷ ws) mp mp' n n' h l =
    ground (arith, read_words-flags ws _ mp' _ n' h l)
read_words-flags (unknown_word ∷ ws) mp mp' n n' h l = ground (arith, h)

-- what an accepted mode sets, by the words that the switch reads
parse_bind_mode-words :
    (mp mp' : MountPoint) (mode : Text)
    → parse_bind_mode mp mode ≡ some mp'
    → let ws = map word_of (split 44 mode) in
      (count is_unknown ws ≡ 0)
      × (count is_access ws ≤ 1)
      × (count is_nocopy ws ≤ 1)
      × (mp'.rw ≡ is_zero (count is_ro ws))
      × (mp'.copy_data ≡ is_zero (count is_nocopy ws))
unfolding parse_bind_mode
parse_bind_mode-words mp mp' mode h =
    let ws = map word_of (split 44 mode) in
    let mp0 = record mp { rw = true; copy_data = true } in
    elim (Option-cases (read_words ws (mp0, no_counts))) [
      | inl e ↦ absurd (ground (arith, e, h))
      | inr ((mp1, n), e) ↦ elim (Bool-cases (is_repeated n)) [
        | inl b ↦ absurd (ground (arith, e, b, h))
        | inr b ↦
            let counts = read_words-access ws mp0 mp1 no_counts n e in
            let few : count is_access ws ≤ 1 = ground (arith, b, counts.0) in
            let flags = read_words-flags ws mp0 mp1 no_counts n e few in
            let last : finish mode (some (mp1, n)) ≡ some mp' = ground (arith, e, h) in
            (
              counts.2,
              few,
              ground (arith, b, counts.1),
              ground (arith, b, last, flags.0),
              ground (arith, b, last, flags.1),
            )
      ]
    ]

-- the words of a bind mode, and the texts that a list has among them
abbrev pub mode_words : List Text
mode_words =
    []
    ∷ str "ro"
    ∷ str "rw"
    ∷ str "dr"
    ∷ str "rr"
    ∷ str "z"
    ∷ str "Z"
    ∷ str "nocopy"
    ∷ str "private"
    ∷ str "rprivate"
    ∷ str "slave"
    ∷ str "rslave"
    ∷ str "shared"
    ∷ str "rshared"
    ∷ []

unfoldable pub is_one_of : List Text → Text → Bool
unfolding text_eq
is_one_of [] t = false
is_one_of (w ∷ ws) t = text_eq t w || is_one_of ws t

unfoldable pub count_of : List Text → List Text → ℕ
unfolding is_one_of
count_of ws [] = 0
count_of ws (t ∷ ts) = if is_one_of ws t then suc (count_of ws ts) else count_of ws ts

unfoldable pub all_of : List Text → List Text → Bool
unfolding is_one_of
all_of ws [] = true
all_of ws (t ∷ ts) = is_one_of ws t && all_of ws ts

word-ro : (t : Text) → is_ro (word_of t) ≡ is_one_of (str "ro" ∷ []) t
unfolding word_of is_one_of text_eq
word-ro [] = refl
word-ro (c ∷ t) = ground arith

word-access : (t : Text) → is_access (word_of t) ≡ is_one_of (str "ro" ∷ str "rw" ∷ []) t
unfolding word_of is_one_of text_eq
word-access [] = refl
word-access (c ∷ t) = ground arith

word-nocopy : (t : Text) → is_nocopy (word_of t) ≡ is_one_of (str "nocopy" ∷ []) t
unfolding word_of is_one_of text_eq
word-nocopy t = elim (Bool-cases (text_eq t (str "nocopy"))) [
  | inl b ↦
      subst (λ u. is_nocopy (word_of u) ≡ is_one_of (str "nocopy" ∷ []) u)
        (sym ((text_eq_iff t (str "nocopy")).0 b)) refl
  | inr b ↦ ground (arith, b)
]

word-unknown : (t : Text) → is_unknown (word_of t) ≡ not (is_one_of mode_words t)
unfolding word_of is_one_of text_eq
word-unknown [] = refl
word-unknown (c ∷ t) = ground arith

count-map :
    (f : Word → Bool) (ws : List Text)
    → ((t : Text) → f (word_of t) ≡ is_one_of ws t)
    → (ts : List Text) → count f (map word_of ts) ≡ count_of ws ts
unfolding count_of
count-map f ws h [] = refl
count-map f ws h (t ∷ ts) = rw (h t, count-map f ws h ts) refl

all_known : (ts : List Text) → count is_unknown (map word_of ts) ≡ 0 → all_of mode_words ts ≡ true
unfolding all_of
all_known [] h = refl
all_known (t ∷ ts) h = ground (arith, h, word-unknown t, all_known ts)

-- A bind mode that is accepted consists of known words (the empty one among them), has at most one of ro
-- and rw and at most one nocopy; the mount is read-only if and only if the mode has the word ro, and data
-- is copied if and only if it does not have nocopy.
pub parse_bind_mode-flags :
    (mp mp' : MountPoint) (mode : Text)
    → parse_bind_mode mp mode ≡ some mp'
    → let ts = split 44 mode in
      (all_of mode_words ts ≡ true)
      × (count_of (str "ro" ∷ str "rw" ∷ []) ts ≤ 1)
      × (count_of (str "nocopy" ∷ []) ts ≤ 1)
      × (mp'.rw ≡ is_zero (count_of (str "ro" ∷ []) ts))
      × (mp'.copy_data ≡ is_zero (count_of (str "nocopy" ∷ []) ts))
parse_bind_mode-flags mp mp' mode h =
    let ts = split 44 mode in
    let (known, access, nocopy, rw_flag, copy_flag) = parse_bind_mode-words mp mp' mode h in
    (
      all_known ts known,
      subst (λ n. n ≤ 1) (count-map is_access _ word-access ts) access,
      subst (λ n. n ≤ 1) (count-map is_nocopy _ word-nocopy ts) nocopy,
      rw_flag ∙ ap is_zero (count-map is_ro _ word-ro ts),
      copy_flag ∙ ap is_zero (count-map is_nocopy _ word-nocopy ts),
    )
