-- ===== src/Parser/Statement.antt =====
-- The statements of src/parser/parser.h.
use my_db.Base.{Bool, false, List, []}
use my_db.Base.Bytes.{Bytes}

pub record ColumnDef : Type 0 where
  pub name : Bytes
  pub type : Bytes

pub record WhereClause : Type 0 where
  pub column : Bytes
  pub value : Bytes

pub data StatementType : Type 0 where
  create_table insert select delete_stmt : StatementType

pub record Statement : Type 0 where
  pub type : StatementType
  pub table_name : Bytes
  pub columns : List ColumnDef
  pub values : List Bytes
  pub select_columns : List Bytes
  pub select_all : Bool
  pub has_where : Bool
  pub where_clause : WhereClause

-- A statement of a type, with the fields as they are before parsing.
abbrev pub new_statement : StatementType → Statement
new_statement t = record {
  type = t;
  table_name = [];
  columns = [];
  values = [];
  select_columns = [];
  select_all = false;
  has_where = false;
  where_clause = record { column = []; value = [] };
}
