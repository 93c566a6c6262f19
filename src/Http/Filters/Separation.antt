-- ===== src/Http/Filters/Separation.antt =====
-- Which filters a registration leaves alone, and what `match` makes of a slash at the end of a url
-- (http/http_conn.h).
use conv_event.Base.{
  ℕ, ◌≡◌, refl, append_assoc, ◌∙◌, Bool, true, false, List, [], ◌∷◌, ◌++◌, Option, none, some,
  arith, Bytes, ◌==◌, text_eq, all_false, NoneOf, NoneOf-append, drop_last-append,
}
use conv_event.Http.Filters.{
  Node, Children, node, leaf, slash, star, is_slash, set_child, segments, graft, last_is_slash,
  register_filter, last_step, shorten, walk, match_filter,
}
use conv_event.Http.Filters.Matching.{
  find-set_ne, segments-append, segments-none, match_below, register_graft,
}

abbrev is_trailing : Bytes → List Bytes → Bool
is_trailing [] [] = true
is_trailing [] (q ∷ rest) = false
is_trailing (c ∷ r) rest = false

-- The last lookup or the next one reads only the children under its segment.
walk-set_ne :
    (s t : Bytes) (r : Bytes) (rest : List Bytes) (m : Node) (ch : Children) (tmp g : Option ℕ)
    → text_eq s t ≡ false
    → is_trailing r rest ≡ false
    → walk s (r ∷ rest) tmp (node (set_child t m ch) g) ≡ walk s (r ∷ rest) tmp (node ch g)
unfolding walk last_step
walk-set_ne s t [] [] m ch tmp g h ne = ground arith
walk-set_ne s t (c ∷ r) [] m ch tmp g h ne = rw (find-set_ne t s m ch h, walk)
walk-set_ne s t r (q ∷ rest) m ch tmp g h ne = rw (find-set_ne t s m ch h, walk)

graft_shape :
    (s : Bytes) (rest : List Bytes) (f : ℕ) (ch : Children) (g : Option ℕ)
    → text_eq s (star ∷ []) ≡ false
    → (m : Node) × (graft s rest f (node ch g) ≡ node (set_child s m ch) g)
unfolding graft
graft_shape s [] f ch g h = (node leaf (some f), rw h)
graft_shape s (r ∷ rest) f ch g h = (graft r rest f (node leaf none), refl)

segments_cons : (c : ℕ) (x : Bytes) → is_trailing (segments (c ∷ x)).0 (segments (c ∷ x)).1 ≡ false
unfolding segments
segments_cons c x = ground arith

not_star : (d : ℕ) (s : Bytes) → (d == star) ≡ false → text_eq (d ∷ s) (star ∷ []) ≡ false
unfolding text_eq
not_star d s h = ground arith

last_is_slash-append :
    (p : Bytes) (c : ℕ) (x : Bytes) → last_is_slash (p ++ (c ∷ x)) ≡ last_is_slash (c ∷ x)
unfolding last_is_slash
last_is_slash-append [] c x = refl
last_is_slash-append (b ∷ []) c x = refl
last_is_slash-append (b ∷ d ∷ p) c x = last_is_slash-append (d ∷ p) c x

segments-slash :
    (s x : Bytes)
    → NoneOf is_slash s
    → segments (s ++ (slash ∷ x)) ≡ (s, (segments x).0 ∷ (segments x).1)
segments-slash s x h = rw (segments-append s x, segments-none s h)

-- A slash at the end of a url of one segment makes `match` look the segment up without its last
-- character. The segment has two characters or more and does not begin with `*`.
pub match_trailing_slash :
    (d : ℕ) (s : Bytes) (x : ℕ) (root : Node)
    → (d == star) ≡ false
    → NoneOf is_slash (d ∷ s)
    → is_slash x ≡ false
    → match_filter (slash ∷ d ∷ s ++ (x ∷ slash ∷ [])) root ≡ match_filter (slash ∷ d ∷ s) root
unfolding walk shorten segments all_false
match_trailing_slash d s x root h hs hx =
    rw
      (
        match_below (s ++ (x ∷ slash ∷ [])) d root h,
        match_below s d root h,
        segments-none (d ∷ s) hs,
        ← append_assoc s (x ∷ []) (slash ∷ []),
        segments-slash (d ∷ s ++ (x ∷ [])) []
            (NoneOf-append is_slash (d ∷ s) (x ∷ []) hs (ground arith)),
      )
      (rw (drop_last-append (d ∷ s) x))

-- Registering a filter below one first segment leaves what is found below another. Both urls go on
-- after their first segment, neither begins with `/*`, the first segments are not empty, and the
-- registered url does not end with a slash.
pub match-register_filter_ne :
    (d : ℕ) (s : Bytes) (e : ℕ) (q : Bytes) (b : ℕ) (t : Bytes) (c : ℕ) (x : Bytes) (f : ℕ)
    (root : Node)
    → (d == star) ≡ false
    → (b == star) ≡ false
    → NoneOf is_slash (d ∷ s)
    → NoneOf is_slash (b ∷ t)
    → text_eq (b ∷ t) (d ∷ s) ≡ false
    → last_is_slash (e ∷ q) ≡ false
    → match_filter
        (slash ∷ b ∷ t ++ (slash ∷ c ∷ x))
        (register_filter (slash ∷ d ∷ s ++ (slash ∷ e ∷ q)) f root)
      ≡ match_filter (slash ∷ b ∷ t ++ (slash ∷ c ∷ x)) root
match-register_filter_ne d s e q b t c x f (node ch g) h hb hs ht ne hl =
    let (m, shape) =
      graft_shape (d ∷ s) ((segments (e ∷ q)).0 ∷ (segments (e ∷ q)).1) f ch g (not_star d s h) in
    rw
      (register_graft (s ++ (slash ∷ e ∷ q)) d f (node ch g) h
        (last_is_slash-append (d ∷ s) slash (e ∷ q) ∙ last_is_slash-append (slash ∷ []) e q ∙ hl))
      (rw
        (
          segments-slash (d ∷ s) (e ∷ q) hs,
          shape,
          match_below (t ++ (slash ∷ c ∷ x)) b (node (set_child (d ∷ s) m ch) g) hb,
          match_below (t ++ (slash ∷ c ∷ x)) b (node ch g) hb,
          segments-slash (b ∷ t) (c ∷ x) ht,
        )
        (walk-set_ne (b ∷ t) (d ∷ s) (segments (c ∷ x)).0 (segments (c ∷ x)).1 m ch g g ne
          (segments_cons c x)))
