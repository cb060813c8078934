-- ===== src/TypeIntern/Key.antt =====
-- The keys: QualName, HandleKey, JoinParams, TypeKey, NamedKey and MethodKey. A key is `none` where
-- the code would follow a null pointer.
pub mod Laws
use voodoo.Prelude.{
  ℕ, List, [], ◌∷◌, ◌++◌, Bool, true, false, Option, none, some, ltb, if◌then◌else◌, is_empty,
}
use voodoo.Prelude.Text.{map_option, both, Bytes, codes, to_string}
use voodoo.Ast.{
  TypeKind, k_bool, k_int8, k_uint8, k_int16, k_uint16, k_int32, k_uint32, k_int64, k_uint64,
  k_float, k_double, k_string, k_enum_ref, k_struct_ref, k_union_ref, k_array, k_map,
  k_pending_remote, k_pending_receiver, k_pending_associated_remote, k_pending_associated_receiver,
  k_handle, k_handle_message_pipe, k_handle_data_pipe_consumer, k_handle_data_pipe_producer,
  k_handle_shared_buffer, k_handle_platform, SpecData, SpecPtr, null, spec, Param, Method,
}

-- QualName
abbrev pub qual_name : Bytes → Bytes → Bytes
qual_name ns name = if is_empty ns then name else ns ++ codes "." ++ name

-- HandleKey
unfoldable pub handle_key : TypeKind → Bytes
handle_key k_handle_message_pipe = codes "handle<message_pipe>"
handle_key k_handle_data_pipe_consumer = codes "handle<data_pipe_consumer>"
handle_key k_handle_data_pipe_producer = codes "handle<data_pipe_producer>"
handle_key k_handle_shared_buffer = codes "handle<shared_buffer>"
handle_key k_handle_platform = codes "handle<platform>"
handle_key _ = codes "handle"

-- `t.owner_namespace.empty() ? current_ns : t.owner_namespace`
abbrev pub namespace_of : SpecData → Bytes → Bytes
namespace_of t current_ns = if is_empty t.owner_namespace then current_ns else t.owner_namespace

-- `base` of TypeKey, from the keys of the element and of the key.
unfoldable pub base_key : SpecData → Bytes → Option Bytes → Option Bytes → TypeKind → Option Bytes
unfolding handle_key
base_key t ns e k k_bool = some (codes "bool")
base_key t ns e k k_int8 = some (codes "int8")
base_key t ns e k k_uint8 = some (codes "uint8")
base_key t ns e k k_int16 = some (codes "int16")
base_key t ns e k k_uint16 = some (codes "uint16")
base_key t ns e k k_int32 = some (codes "int32")
base_key t ns e k k_uint32 = some (codes "uint32")
base_key t ns e k k_int64 = some (codes "int64")
base_key t ns e k k_uint64 = some (codes "uint64")
base_key t ns e k k_float = some (codes "float")
base_key t ns e k k_double = some (codes "double")
base_key t ns e k k_string = some (codes "string")
base_key t ns e k k_enum_ref =
    let n =
      if is_empty t.owner_container then t.name else t.owner_container ++ codes "." ++ t.name in
    some (codes "enum:" ++ qual_name ns n)
base_key t ns e k k_struct_ref = some (codes "struct:" ++ qual_name ns t.name)
base_key t ns e k k_union_ref = some (codes "union:" ++ qual_name ns t.name)
base_key t ns e k k_array =
    map_option
      (λ x.
        if ltb 0 t.fixed_array_size
        then codes "array<" ++ x ++ codes "," ++ to_string t.fixed_array_size ++ codes ">"
        else codes "array<" ++ x ++ codes ">")
      e
base_key t ns e k k_map = both (λ x y. codes "map<" ++ x ++ codes "," ++ y ++ codes ">") k e
base_key t ns e k k_pending_remote =
    some (codes "pending_remote<" ++ qual_name ns t.name ++ codes ">")
base_key t ns e k k_pending_receiver =
    some (codes "pending_receiver<" ++ qual_name ns t.name ++ codes ">")
base_key t ns e k k_pending_associated_remote =
    some (codes "pending_associated_remote<" ++ qual_name ns t.name ++ codes ">")
base_key t ns e k k_pending_associated_receiver =
    some (codes "pending_associated_receiver<" ++ qual_name ns t.name ++ codes ">")
base_key t ns e k h = some (handle_key h)

-- TypeKey
unfoldable pub type_key : SpecPtr → Bytes → Option Bytes
unfolding base_key
type_key null current_ns = none
type_key (spec t element key) current_ns =
    map_option (λ base. if t.nullable then base ++ codes "?" else base)
      (base_key t (namespace_of t current_ns) (type_key element current_ns)
        (type_key key current_ns) t.kind)

-- JoinParams, where `first` says that no comma is due.
abbrev pub join_rest : Bool → List Param → Bytes → Option Bytes
join_rest first [] ns = some []
join_rest first (p ∷ ps) ns =
    both (λ k rest. (if first then [] else codes ",") ++ k ++ rest) (type_key p.type ns)
      (join_rest false ps ns)

unfoldable pub join_params : List Param → Bytes → Option Bytes
unfolding type_key
join_params ps ns = join_rest true ps ns

-- NamedKey
unfoldable pub named_key : Bytes → Bytes → Bytes → Bytes
named_key ns name kind = kind ++ codes ":" ++ qual_name ns name

-- What MethodKey appends for the response.
abbrev pub response_key : Bytes → Method → Option Bytes
response_key ns m =
    if m.is_result_response
    then both (λ a b. codes "->result<" ++ a ++ codes "," ++ b ++ codes ">")
        (type_key m.result_success ns) (type_key m.result_error ns)
    else if m.has_response
    then map_option (λ ps. codes "->(" ++ ps ++ codes ")") (join_params m.response_params ns)
    else some []

-- MethodKey
unfoldable pub method_key : Bytes → Bytes → Method → Option Bytes
unfolding join_params
method_key ns iface m =
    both
      (λ ps rest.
        codes "func "
        ++ qual_name ns iface
        ++ codes "."
        ++ m.name
        ++ codes "("
        ++ ps
        ++ codes ")"
        ++ rest)
      (join_params m.params ns) (response_key ns m)
