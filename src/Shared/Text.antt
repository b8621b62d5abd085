-- ===== src/Shared/Text.antt =====
-- Python's `str` as its list of code points, with the methods that the program calls.
use Prim.Native.Char.{code}
use Prim.Native.String.{String}
use domain_watcher.Prelude.{
  ℕ, ◌+◌, Bool, true, false, ◌&&◌, ◌||◌, List, [], ◌∷◌, ◌++◌, leb, ◌==◌, nat_eq, if◌then◌else◌, any,
  not,
}

abbrev pub Text : Type 0
Text = List ℕ

-- a literal of the source
unfoldable pub lit : String → Text
lit String.[] = []
lit (String.◌∷◌ c s) = code c ∷ lit s

-- `not s`
abbrev pub is_empty : Text → Bool
is_empty [] = true
is_empty (c ∷ s) = false

-- `s or default`
abbrev pub or_else : Text → Text → Text
or_else [] d = d
or_else (c ∷ s) d = c ∷ s

-- the code points that `str.isspace` accepts, which `str.strip` and `str.split` act on
unfoldable pub is_space : ℕ → Bool
is_space c =
    leb 9 c && leb c 13
    || leb 28 c && leb c 32
    || c == 0x85
    || c == 0xa0
    || c == 0x1680
    || leb 0x2000 c && leb c 0x200a
    || c == 0x2028
    || c == 0x2029
    || c == 0x202f
    || c == 0x205f
    || c == 0x3000

unfoldable pub drop_while : (ℕ → Bool) → Text → Text
drop_while p [] = []
drop_while p (c ∷ s) = let rest = drop_while p s in if p c then rest else c ∷ s

-- drops the longest end all of whose code points pass the test
unfoldable pub drop_end : (ℕ → Bool) → Text → Text
drop_end p [] = []
drop_end p (c ∷ s) = let rest = drop_end p s in if p c && is_empty rest then [] else c ∷ rest

-- `s.strip()`
unfoldable pub strip : Text → Text
unfolding drop_while drop_end is_space
strip s = drop_end is_space (drop_while is_space s)

-- `s.lower()` on ASCII
unfoldable pub to_lower : ℕ → ℕ
to_lower c = if leb b'A' c && leb c b'Z' then c + 32 else c

-- `s.split(sep)` for a separator of one code point: a field for each separator, and one more
unfoldable pub put_head : ℕ → List Text → List Text
put_head c [] = (c ∷ []) ∷ []
put_head c (f ∷ fs) = (c ∷ f) ∷ fs

unfoldable pub split_on : ℕ → Text → List Text
unfolding put_head
split_on sep [] = [] ∷ []
split_on sep (c ∷ s) = let rest = split_on sep s in if c == sep then [] ∷ rest else put_head c rest

-- `sep.join(fields)` for a separator of one code point
unfoldable pub join : ℕ → List Text → Text
join sep [] = []
join sep (f ∷ []) = f
join sep (f ∷ g ∷ fs) = f ++ (sep ∷ join sep (g ∷ fs))

-- `s.split()`: the runs of code points that are not white space. The first argument is the run
-- that is being read.
unfoldable pub words : Text → Text → List Text
unfolding is_space
words [] [] = []
words (c ∷ run) [] = (c ∷ run) ∷ []
words run (c ∷ s) = elim (is_space c) [
  | true ↦ if is_empty run then words [] s else run ∷ words [] s
  | false ↦ words (run ++ c ∷ []) s
]

abbrev pub split : Text → List Text
split = words []

-- `repr(s)`: the quotes, and the escapes of the quote, the backslash and the common control
-- characters. Other code points that are not printable stay as they are here.
unfoldable pub quote_for : Text → ℕ
unfolding any
quote_for s = if any (λ c. c == 39) s && not (any (λ c. c == 34) s) then 34 else 39

unfoldable pub escape : ℕ → Text → Text
escape q [] = q ∷ []
escape q (c ∷ s) =
    let rest = escape q s in
    if c == q || c == b'\\'
    then b'\\' ∷ c ∷ rest
    else if c == b'\n'
    then b'\\' ∷ b'n' ∷ rest
    else if c == b'\r'
    then b'\\' ∷ b'r' ∷ rest
    else if c == b'\t'
    then b'\\' ∷ b't' ∷ rest
    else c ∷ rest

unfoldable pub repr : Text → Text
unfolding quote_for escape
repr s = quote_for s ∷ escape (quote_for s) s
