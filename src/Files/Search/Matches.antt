-- ===== src/Files/Search/Matches.antt =====
-- The loops of tools/filesystem/search.py against a plain list of all matches.
use kanna_pa.Prelude.{
  ℕ, zero, suc, ◌+◌, ◌≤◌, ◌<◌, String, ◌≡◌, refl, ap, sym, ◌∙◌, Bool, true, false, List, [], ◌∷◌,
  ◌++◌, length, length-append, leb, leb→le, lt_of_leb-false, arith, if◌then◌else◌, Bool-cases, inl,
  inr,
}
use mathlib.Core.List.{append_assoc, append-nil}
use kanna_pa.Files.Disk.{Node}
use kanna_pa.Files.Os.{Os}
use kanna_pa.Files.Search.{
  Match, match_at, max_matches, search_lines, searched_text, lines_of, search_each,
}

abbrev pub prefix : ℕ → List Match → List Match
prefix zero xs = []
prefix (suc n) [] = []
prefix (suc n) (x ∷ xs) = x ∷ prefix n xs

prefix_all : (n : ℕ) (xs : List Match) → length xs ≤ n → prefix n xs ≡ xs
prefix_all zero [] h = refl
prefix_all zero (x ∷ xs) h = absurd (omega arith)
prefix_all (suc n) [] h = refl
prefix_all (suc n) (x ∷ xs) h = ap (◌∷◌ x) (prefix_all n xs (omega arith))

prefix-append : (n : ℕ) (xs ys : List Match) → n ≤ length xs → prefix n (xs ++ ys) ≡ prefix n xs
prefix-append zero xs ys h = refl
prefix-append (suc n) [] ys h = absurd (omega arith)
prefix-append (suc n) (x ∷ xs) ys h = ap (◌∷◌ x) (prefix-append n xs ys (omega arith))

-- Every matching line from number `i`, with no limit.
pub line_matches : (String → Bool) → List String → ℕ → List String → List Match
line_matches hit p i [] = []
line_matches hit p i (line ∷ lines) =
    let rest = line_matches hit p (i + 1) lines in
    if hit line then match_at p i line ∷ rest else rest

pub all_matches : Os → (String → Bool) → List (List String × Node) → List Match
unfolding line_matches
all_matches os hit [] = []
all_matches os hit ((p, n) ∷ files) =
    line_matches hit p 1 (lines_of os (searched_text os n)) ++ all_matches os hit files

-- The first matches up to the limit, and whether the limit is met.
abbrev pub cut : List Match → List Match × Bool
cut all = (prefix max_matches all, leb max_matches (length all))

cut-append :
    (xs ys : List Match) → max_matches ≤ length xs → cut (xs ++ ys) ≡ (prefix max_matches xs, true)
cut-append xs ys h = ground (arith, prefix-append max_matches xs ys h, length-append xs ys)

cut_short : (xs : List Match) → length xs < max_matches → cut xs ≡ (xs, false)
cut_short xs h = ground (arith, prefix_all max_matches xs (omega arith))

step_over :
    (found : List Match) (m : Match) (rest : List Match)
    → (found ++ m ∷ []) ++ rest ≡ found ++ m ∷ rest
step_over found m rest = append_assoc found (m ∷ []) rest

search_lines-cut :
    (hit : String → Bool) (p : List String) (i : ℕ) (lines : List String) (found : List Match)
    → length found < max_matches
    → search_lines hit p i lines found ≡ cut (found ++ line_matches hit p i lines)
unfolding search_lines line_matches
search_lines-cut hit p i [] found h = rw (append-nil found) (sym (cut_short found h))
search_lines-cut hit p i (line ∷ lines) found h =
    let more = found ++ match_at p i line ∷ [] in
    let size : length more ≡ length found + 1 = length-append found (match_at p i line ∷ []) in
    elim (Bool-cases (hit line)) [
      | inr miss ↦ rw miss (search_lines-cut hit p (i + 1) lines found h)
      | inl here ↦ elim (Bool-cases (leb max_matches (length more))) [
        | inl full ↦ rw here (
            rw full (
              sym (
                rw (← step_over found (match_at p i line) (line_matches hit p (i + 1) lines)) (
                  cut-append more (line_matches hit p (i + 1) lines) (leb→le _ _ full)
                  ∙ ap (λ (x : List Match). (x, true))
                      (prefix_all max_matches more (omega (arith, size)))))))
        | inr below ↦ rw here (
            rw below (
              search_lines-cut hit p (i + 1) lines more (lt_of_leb-false _ _ below)
              ∙ ap cut (step_over found (match_at p i line) (line_matches hit p (i + 1) lines))))
      ]
    ]

-- The search reports the matching lines of the selected files in order, up to the limit, and
-- says `truncated` exactly when the limit is met.
pub search_each-cut :
    (os : Os) (hit : String → Bool) (files : List (List String × Node)) (found : List Match)
    → length found < max_matches
    → search_each os hit files found ≡ cut (found ++ all_matches os hit files)
unfolding search_each all_matches
search_each-cut os hit [] found h = rw (append-nil found) (sym (cut_short found h))
search_each-cut os hit ((p, n) ∷ files) found h =
    let here = line_matches hit p 1 (lines_of os (searched_text os n)) in
    let loop = search_lines-cut hit p 1 (lines_of os (searched_text os n)) found h in
    let order = append_assoc found here (all_matches os hit files) in
    elim (Bool-cases (leb max_matches (length (found ++ here)))) [
      | inl full ↦ rw loop (
          rw full (
            sym (
              rw (← order)
                (cut-append (found ++ here) (all_matches os hit files) (leb→le _ _ full)))))
      | inr below ↦
          let short = lt_of_leb-false _ _ below in
          rw loop (
            rw below (
              rw (prefix_all max_matches (found ++ here) (omega (arith, short)))
                (search_each-cut os hit files (found ++ here) short ∙ ap cut order)))
    ]
