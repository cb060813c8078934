-- ===== src/TypeIntern.antt =====
-- src/type_intern.cc and src/type_intern.h, with the types of src/ast.h that it reads.
pub mod Key
pub mod Table
mod Tests
