-- ===== src/TypeIntern/Table.antt =====
-- The class TypeIntern: its table of keys, and its operations.
pub mod Position
pub mod Laws
use voodoo.Prelude.{
  ℕ, suc, ◌+◌, ◌-◌, ◌%◌, ◌^◌, List, [], ◌∷◌, ◌++◌, Bool, true, false, ◌||◌, Option, none, some, ltb,
  ◌==◌, if◌then◌else◌, length, get_or,
}
use voodoo.Prelude.Text.{Bytes, same_text, map_option}
use voodoo.Ast.{SpecPtr, Method}
use voodoo.TypeIntern.Key.{type_key, named_key, method_key}

-- `by_key_` is an association list with one entry for each key, and a key's id is its index in
-- `keys_`, counted from 1.
pub record TypeIntern : Type 0 where
  pub by_key : List (Bytes × ℕ)
  pub keys : List Bytes

abbrev pub empty_intern : TypeIntern
empty_intern = record { by_key = []; keys = [] }

-- `by_key_.find`
abbrev pub find_key : Bytes → List (Bytes × ℕ) → Option ℕ
find_key k [] = none
find_key k ((j, id) ∷ m) = if same_text j k then some id else find_key k m

-- TypeIntern::InternKey
unfoldable pub intern_key : Bytes → TypeIntern → ℕ × TypeIntern
intern_key key s = elim (find_key key s.by_key) [
  | some id ↦ (id, s)
  | none ↦
      let id = (length s.keys + 1) % 2 ^ 32 in
      (id, record { by_key = (key, id) ∷ s.by_key; keys = s.keys ++ key ∷ [] })
]

-- TypeIntern::Intern
unfoldable pub intern : SpecPtr → Bytes → TypeIntern → Option (ℕ × TypeIntern)
unfolding intern_key
intern t current_ns s = map_option (λ k. intern_key k s) (type_key t current_ns)

-- TypeIntern::InternNamed
unfoldable pub intern_named : Bytes → Bytes → Bytes → TypeIntern → ℕ × TypeIntern
unfolding intern_key
intern_named ns name kind s = intern_key (named_key ns name kind) s

-- TypeIntern::InternMethod
unfoldable pub intern_method : Bytes → Bytes → Method → TypeIntern → Option (ℕ × TypeIntern)
unfolding intern_key
intern_method ns iface m s = map_option (λ k. intern_key k s) (method_key ns iface m)

-- TypeIntern::Identical
unfoldable pub identical : ℕ → ℕ → Bool
identical a b = a == b

-- TypeIntern::Key
unfoldable pub key_of : ℕ → TypeIntern → Bytes
key_of id s = if id == 0 || ltb (length s.keys) id then [] else get_or s.keys (id - 1) []

-- TypeIntern::size
unfoldable pub size : TypeIntern → ℕ
size s = length s.keys % 2 ^ 32
