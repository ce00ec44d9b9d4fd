-- ===== src/Store/Integrity/Reached.antt =====
-- Every state of the tables that calls reach from empty tables keeps the constraints.
use stencil.Base.{[]}
use stencil.Store.Tables.{Db}
use stencil.Store.Integrity.{
  IsConsistent, Call, create_namespace_call, update_namespace_call, delete_namespace_call,
  create_call, update_metadata_call, delete_call, delete_version_call, after,
}
use stencil.Store.Integrity.Dropped.{
  delete-IsConsistent, delete_version-IsConsistent, delete_namespace-IsConsistent,
}
use stencil.Store.Integrity.Added.{
  create_namespace-IsConsistent, update_namespace-IsConsistent, update_metadata-IsConsistent,
}
use stencil.Store.Integrity.Created.{create-IsConsistent}

abbrev pub empty_tables : Db
empty_tables = record {
  namespaces = [];
  schemas = [];
  versions = [];
  schema_files = [];
  versions_schema_files = [];
  next_schema_id = 1;
}

-- The states of the tables that sequences of calls reach, failed calls included.
pub data Reached : Db → Type 0 where
  at_start : Reached empty_tables
  then_call : {db : Db} → Reached db → (call : Call) → Reached (after db call)

after-IsConsistent : (db : Db) → IsConsistent db → (call : Call) → IsConsistent (after db call)
unfolding after
after-IsConsistent db c (create_namespace_call ns) = create_namespace-IsConsistent db c ns
after-IsConsistent db c (update_namespace_call ns) = update_namespace-IsConsistent db c ns
after-IsConsistent db c (delete_namespace_call id) = delete_namespace-IsConsistent db c id
after-IsConsistent db c (create_call request version_id sha) =
    create-IsConsistent db c request version_id sha
after-IsConsistent db c (update_metadata_call ns name meta) =
    update_metadata-IsConsistent db c ns name meta
after-IsConsistent db c (delete_call ns name) = delete-IsConsistent db c ns name
after-IsConsistent db c (delete_version_call ns name version) =
    delete_version-IsConsistent db c ns name version

-- In every state that calls of the repositories reach from empty tables, failed calls included,
-- the unique columns hold no value twice (a namespace and a schema's name, and a schema and a
-- version's number, each together), every row that names a row of another table names one that is
-- there, and versions are numbered from 1.
pub Reached-IsConsistent : (db : Db) → Reached db → IsConsistent db
Reached-IsConsistent db at_start = record {
  namespace_ids = tt;
  schema_ids = tt;
  schema_names = tt;
  version_ids = tt;
  version_numbers = tt;
  file_ids = tt;
  homes = tt;
  schemas_there = tt;
  versions_there = tt;
  files_there = tt;
  numbered = tt;
  known = tt;
}
Reached-IsConsistent db (then_call {db = before} r call) =
    after-IsConsistent before (Reached-IsConsistent before r) call
