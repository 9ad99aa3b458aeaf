-- ===== src/Permissions/Gate.antt =====
-- core/permissions/gate.py. The line that a user types at a prompt is part of the gate.
pub mod Standing
use mathlib.Core.List.{reverse}
use kanna_pa.Prelude.{
  ℕ, ◌+◌, String, Bool, false, ◌&&◌, ◌||◌, List, [], ◌∷◌, any_of, ◌==◌, ◌=ₛ◌, leb, if◌then◌else◌,
}
use kanna_pa.Value.{Fields}
use kanna_pa.Permissions.Trust.{TrustRule, rule_matches}

-- A line of text by its code points.
abbrev pub Line : Type 0
Line = List ℕ

-- The characters that `str.strip` takes off.
unfoldable pub is_space : ℕ → Bool
is_space c =
    (leb 9 c && leb c 13)
    || (leb 28 c && leb c 32)
    || c == 0x85
    || c == 0xa0
    || c == 0x1680
    || (leb 0x2000 c && leb c 0x200a)
    || c == 0x2028
    || c == 0x2029
    || c == 0x202f
    || c == 0x205f
    || c == 0x3000

unfoldable pub lstrip : Line → Line
unfolding is_space
lstrip [] = []
lstrip (c ∷ s) = let rest = lstrip s in if is_space c then rest else c ∷ s

unfoldable pub strip : Line → Line
unfolding lstrip
strip s = reverse (lstrip (reverse (lstrip s)))

-- No other character has a lower case among the letters of "yes".
unfoldable pub to_lower : ℕ → ℕ
to_lower c = if leb b'A' c && leb c b'Z' then c + 32 else c

unfoldable pub is_yes : Line → Bool
unfolding to_lower
is_yes (y ∷ []) = to_lower y == b'y'
is_yes (y ∷ e ∷ s ∷ []) = to_lower y == b'y' && to_lower e == b'e' && to_lower s == b's'
is_yes _ = false

pub data Gate : Type 0 where
  deny_all : Gate
  cli_prompt : (answer : Line) → Gate
  pre_approved : (allowed : List String) → Gate
  trust_store : (rules : List TrustRule) → (fallback : Gate) → Gate

abbrev pub covers : String → Fields → TrustRule → Bool
covers name args r = rule_matches r.tool_name r.args_pattern name args

-- The `approve` method of each class.
unfoldable pub approve : Gate → String → Fields → Bool
unfolding strip is_yes
approve deny_all name args = false
approve (cli_prompt answer) name args = is_yes (strip answer)
approve (pre_approved allowed) name args = any_of (λ t. t =ₛ name) allowed
approve (trust_store rules fallback) name args =
    any_of (covers name args) rules || approve fallback name args
