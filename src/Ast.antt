-- ===== src/Ast.antt =====
-- src/ast.h: what the parser of voodoomc makes of a file. Fixed-width numbers, the index of a
-- declaration and the bits of a double are natural numbers.
use voodoo.Prelude.{ℕ, List, Bool}
use voodoo.Prelude.Text.{Bytes}

pub data TypeKind : Type 0 where
  k_bool k_int8 k_uint8 k_int16 k_uint16 k_int32 k_uint32 k_int64 k_uint64 k_float k_double :
      TypeKind
  k_string k_enum_ref k_struct_ref k_union_ref k_array k_map : TypeKind
  k_pending_remote k_pending_receiver : TypeKind
  k_pending_associated_remote k_pending_associated_receiver : TypeKind
  k_handle k_handle_message_pipe k_handle_data_pipe_consumer : TypeKind
  k_handle_data_pipe_producer k_handle_shared_buffer k_handle_platform : TypeKind

-- What a TypeSpec holds besides its pointers to other specs.
pub record SpecData : Type 0 where
  pub kind : TypeKind
  pub name : Bytes
  pub nullable : Bool
  pub owner_namespace : Bytes
  pub owner_container : Bytes
  pub fixed_array_size : ℕ

-- A `shared_ptr<TypeSpec>` is `null` or `spec`; the pointers of a spec are `element` and `key`.
-- A TypeSpec itself is a `spec`.
pub data SpecPtr : Type 0 where
  null : SpecPtr
  spec : (fields : SpecData) (element key : SpecPtr) → SpecPtr

pub data Mode : Type 0 where
  k_none k_any k_all : Mode

pub record EnableIfClause : Type 0 where
  pub mode : Mode
  pub flags : List Bytes

-- The struct EnableIf, whose field `enable_if` is the clause of `[EnableIf=...]`.
pub record EnableIf : Type 0 where
  pub enable_if : EnableIfClause
  pub enable_if_not : EnableIfClause

pub record Param : Type 0 where
  pub type : SpecPtr
  pub name : Bytes
  pub min_version : ℕ
  pub ordinal : ℕ
  pub has_explicit_ordinal : Bool
  pub enable_if : EnableIf

pub record Method : Type 0 where
  pub name : Bytes
  pub ordinal : ℕ
  pub has_explicit_ordinal : Bool
  pub params : List Param
  pub has_response : Bool
  pub response_params : List Param
  pub is_result_response : Bool
  pub result_success : SpecPtr
  pub result_error : SpecPtr
  pub is_sync : Bool
  pub min_version : ℕ
  pub enable_if : EnableIf

pub data FloatSpecial : Type 0 where
  no_special infinity negative_infinity nan : FloatSpecial

pub record DefaultValue : Type 0 where
  pub has_value : Bool
  pub bool_value : Bool
  pub int_value : ℕ
  pub float_value : ℕ
  pub float_special : FloatSpecial
  pub string_value : Bytes
  pub named_expr : Bytes
  pub named_expr_owner_namespace : Bytes
  pub named_expr_owner_container : Bytes

pub record ConstDecl : Type 0 where
  pub type : SpecPtr
  pub name : Bytes
  pub value : DefaultValue
  pub decl_index : ℕ
  pub enable_if : EnableIf

pub record EnumValue : Type 0 where
  pub name : Bytes
  pub value : ℕ
  pub min_version : ℕ
  pub is_default : Bool
  pub enable_if : EnableIf

pub record EnumDecl : Type 0 where
  pub name : Bytes
  pub values : List EnumValue
  pub is_extensible : Bool
  pub is_native : Bool
  pub enable_if : EnableIf

pub record StructField : Type 0 where
  pub type : SpecPtr
  pub name : Bytes
  pub default_value : DefaultValue
  pub min_version : ℕ
  pub ordinal : ℕ
  pub has_explicit_ordinal : Bool
  pub enable_if : EnableIf

pub record StructDecl : Type 0 where
  pub name : Bytes
  pub fields : List StructField
  pub enums : List EnumDecl
  pub consts : List ConstDecl
  pub decl_index : ℕ
  pub version : ℕ
  pub owner_container : Bytes
  pub is_native : Bool
  pub enable_if : EnableIf

pub record UnionField : Type 0 where
  pub type : SpecPtr
  pub name : Bytes
  pub tag : ℕ
  pub has_explicit_tag : Bool
  pub min_version : ℕ
  pub is_default : Bool
  pub enable_if : EnableIf

pub record UnionDecl : Type 0 where
  pub name : Bytes
  pub fields : List UnionField
  pub decl_index : ℕ
  pub version : ℕ
  pub is_extensible : Bool
  pub owner_container : Bytes
  pub enable_if : EnableIf

pub record Interface : Type 0 where
  pub name : Bytes
  pub methods : List Method
  pub enums : List EnumDecl
  pub consts : List ConstDecl
  pub structs : List StructDecl
  pub unions : List UnionDecl
  pub version : ℕ
  pub is_extensible : Bool
  pub enable_if : EnableIf

pub record ImportDecl : Type 0 where
  pub path : Bytes
  pub line : ℕ
  pub resolved_path : Bytes

pub record FeatureDecl : Type 0 where
  pub name : Bytes
  pub consts : List ConstDecl
  pub enable_if : EnableIf

pub record Module : Type 0 where
  pub name : Bytes
  pub imports : List ImportDecl
  pub enums : List EnumDecl
  pub structs : List StructDecl
  pub unions : List UnionDecl
  pub interfaces : List Interface
  pub consts : List ConstDecl
  pub features : List FeatureDecl
