-- ===== src/Prelude/Text.antt =====
-- Comma-separated columns: `str.strip`, `str.split(",")`, and the two composed as the columns
-- `depends_on` and `split_csv` of core/config.py read them.
use Prim.Native.Nat.{ℕ, zero, suc}
use Prim.Native.Char.{Char, code}
use Prim.Native.String.{String}
use mathlib.Core.Path.{◌≡◌, refl, ap, ◌∙◌}
use mathlib.Core.Bool.{Bool, true, false, not, ◌&&◌, ◌||◌}
use mathlib.Core.List.{List, [], ◌∷◌, map}
use native.Mathlib.Omega.{arith}
use nexus_grid_grid.Prelude.Tests.{nat_beq, leb, if◌then◌else◌}
use nexus_grid_grid.Prelude.Lists.{select, All}

-- The code points that `str.strip()` removes.
unfoldable pub is_space : ℕ → Bool
is_space c =
    (leb 9 c && leb c 13)
    || (leb 28 c && leb c 32)
    || nat_beq c 133
    || nat_beq c 160
    || nat_beq c 5760
    || (leb 8192 c && leb c 8202)
    || nat_beq c 8232
    || nat_beq c 8233
    || nat_beq c 8239
    || nat_beq c 8287
    || nat_beq c 12288

abbrev pub is_blank : String → Bool
is_blank String.[] = true
is_blank (String.◌∷◌ c s) = false

unfoldable pub lstrip : String → String
lstrip String.[] = String.[]
lstrip (String.◌∷◌ c s) = let rest = lstrip s in if is_space (code c) then rest else String.◌∷◌ c s

unfoldable pub rstrip : String → String
rstrip String.[] = String.[]
rstrip (String.◌∷◌ c s) =
    let rest = rstrip s in
    if is_blank rest && is_space (code c) then String.[] else String.◌∷◌ c rest

unfoldable pub strip : String → String
unfolding lstrip rstrip is_space
strip s = rstrip (lstrip s)

-- Puts a character in front of the first part.
abbrev pub onto_first : Char → List String → List String
onto_first c [] = String.◌∷◌ c String.[] ∷ []
onto_first c (w ∷ ws) = String.◌∷◌ c w ∷ ws

unfoldable pub split_commas : String → List String
split_commas String.[] = String.[] ∷ []
split_commas (String.◌∷◌ c s) =
    let rest = split_commas s in
    if nat_beq (code c) b',' then String.[] ∷ rest else onto_first c rest

-- `[d.strip() for d in s.split(",") if d.strip()]`
unfoldable pub csv_items : String → List String
unfolding strip split_commas
csv_items s = select (λ w. not (is_blank w)) (map strip (split_commas s))

-- `",".join(items)`
abbrev pub append_text : String → String → String
append_text String.[] t = t
append_text (String.◌∷◌ c s) t = String.◌∷◌ c (append_text s t)

-- `text[:n]`
abbrev pub take_text : ℕ → String → String
take_text zero t = String.[]
take_text (suc n) String.[] = String.[]
take_text (suc n) (String.◌∷◌ c t) = String.◌∷◌ c (take_text n t)

-- `text.startswith(front)`
abbrev pub starts_with : String → String → Bool
starts_with String.[] t = true
starts_with (String.◌∷◌ c s) String.[] = false
starts_with (String.◌∷◌ c s) (String.◌∷◌ d t) = nat_beq (code c) (code d) && starts_with s t

-- `part in text`
abbrev pub has_part : String → String → Bool
has_part part String.[] = is_blank part
has_part part (String.◌∷◌ c t) = starts_with part (String.◌∷◌ c t) || has_part part t

-- `text.replace("\r\n", "\n")`
abbrev pub drop_cr : String → String
drop_cr String.[] = String.[]
drop_cr (String.◌∷◌ c t) =
    let rest = drop_cr t in
    if nat_beq (code c) 13 && starts_with "\n" t then rest else String.◌∷◌ c rest

-- `text.replace("\r", "\n")`
abbrev pub cr_to_lf : String → String
cr_to_lf String.[] = String.[]
cr_to_lf (String.◌∷◌ c t) =
    let rest = cr_to_lf t in if nat_beq (code c) 13 then String.◌∷◌ "\n" rest else String.◌∷◌ c rest

abbrev pub join_commas : List String → String
join_commas [] = ""
join_commas (w ∷ []) = w
join_commas (w ∷ v ∷ ws) = append_text w (append_text "," (join_commas (v ∷ ws)))

abbrev pub has_comma : String → Bool
has_comma String.[] = false
has_comma (String.◌∷◌ c s) = nat_beq (code c) b',' || has_comma s

-- An item that survives: not blank, no comma in it, nothing for `strip` to remove.
pub record IsClean (w : String) : Type 0 where
  pub filled : is_blank w ≡ false
  pub whole : has_comma w ≡ false
  pub trimmed : strip w ≡ w

split-word : (w : String) → has_comma w ≡ false → split_commas w ≡ w ∷ []
unfolding split_commas
split-word String.[] h = refl
split-word (String.◌∷◌ c s) h = ground (arith, split-word s)

split-append :
    (w t : String)
    → has_comma w ≡ false
    → split_commas (append_text w (append_text "," t)) ≡ w ∷ split_commas t
unfolding split_commas
split-append String.[] t h = refl
split-append (String.◌∷◌ c s) t h = ground (arith, split-append s t)

split-join :
    (w : String) (ws : List String)
    → All IsClean (w ∷ ws)
    → split_commas (join_commas (w ∷ ws)) ≡ w ∷ ws
split-join w [] h = split-word w h.0.whole
split-join w (v ∷ ws) h =
    split-append w (join_commas (v ∷ ws)) h.0.whole ∙ ap (◌∷◌ w) (split-join v ws h.1)

keep_clean :
    (ws : List String) → All IsClean ws → select (λ w. not (is_blank w)) (map strip ws) ≡ ws
keep_clean [] h = refl
keep_clean (w ∷ ws) h = ground (arith, h.0.trimmed, h.0.filled, keep_clean ws h.1)

-- Reading a joined column gives the items back, as long as each is clean; the empty column has none.
pub csv_items-join : (ws : List String) → All IsClean ws → csv_items (join_commas ws) ≡ ws
unfolding csv_items
csv_items-join [] h = refl
csv_items-join (w ∷ ws) h = rw (split-join w ws h) (keep_clean (w ∷ ws) h)
