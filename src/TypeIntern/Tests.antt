-- ===== src/TypeIntern/Tests.antt =====
-- Each theorem about TypeIntern at a concrete input.
use voodoo.Prelude.{◌≡◌, refl, [], ◌∷◌, arith, false, some, inl}
use voodoo.Prelude.Text.{Bytes, codes}
use voodoo.Ast.{SpecData, spec, null, k_struct_ref}
use voodoo.TypeIntern.Key.{type_key}
use voodoo.TypeIntern.Key.Laws.{type_key_container}
use voodoo.TypeIntern.Table.{TypeIntern, intern_key, key_of, identical}
use voodoo.TypeIntern.Table.Laws.{IsIntern, key_of-intern_key, identical-intern_key}

abbrev int32_key : Bytes
int32_key = codes "int32"

abbrev string_key : Bytes
string_key = codes "string?"

-- The table once `int32` is interned.
abbrev small_table : TypeIntern
small_table = record { by_key = (int32_key, 1) ∷ []; keys = int32_key ∷ [] }

small_table-IsIntern : IsIntern small_table
small_table-IsIntern = record { linked = λ k. refl; small = omega arith }

key_of-intern_key_example :
    key_of (intern_key string_key small_table).0 (intern_key string_key small_table).1 ≡ string_key
key_of-intern_key_example =
    key_of-intern_key string_key small_table small_table-IsIntern (omega arith)

identical-intern_key_example :
    identical
      (intern_key string_key small_table).0
      (intern_key int32_key (intern_key string_key small_table).1).0
    ≡ false
identical-intern_key_example =
    identical-intern_key string_key int32_key small_table small_table-IsIntern (omega arith)

-- The struct `Params` of the interface `Foo`.
abbrev foo_params : SpecData
foo_params = record {
  kind = k_struct_ref;
  name = codes "Params";
  nullable = false;
  owner_namespace = [];
  owner_container = codes "Foo";
  fixed_array_size = 0;
}

type_key_container_example :
    type_key (spec (record foo_params { owner_container = codes "Bar" }) null null) (codes "app")
    ≡ type_key (spec foo_params null null) (codes "app")
type_key_container_example =
    type_key_container foo_params (codes "Bar") null null (codes "app") (inl refl)

-- What that key is.
foo_params_key :
    type_key (spec foo_params null null) (codes "app") ≡ some (codes "struct:app.Params")
unfolding type_key
foo_params_key = refl
