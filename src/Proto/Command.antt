-- ===== src/Proto/Command.antt =====
-- The messages of crates/proto/proto/lumen.proto. An enum field holds an `i32`.
use lumen.Base.{ℕ, zero, suc, Bool, Text, Option, none, some, List}

pub data FieldType : Type 0 where
  unspecified text keyword i64 f64 date : FieldType

pub record Field : Type 0 where
  pub name : Text
  pub ty : ℕ
  pub indexed : Bool
  pub fast : Bool

pub record Mapping : Type 0 where
  pub fields : List Field

pub record IndexDocument : Type 0 where
  pub collection : Text
  pub id : Text
  pub source : List ℕ

pub record DeleteDocument : Type 0 where
  pub collection : Text
  pub id : Text

pub record CreateCollection : Type 0 where
  pub collection : Text
  pub mapping : Option Mapping
  pub uuid : Text

pub record DropCollection : Type 0 where
  pub collection : Text

pub data Op : Type 0 where
  index_document : IndexDocument → Op
  delete_document : DeleteDocument → Op
  create_collection : CreateCollection → Op
  drop_collection : DropCollection → Op

pub record Command : Type 0 where
  pub op : Option Op

pub record WalEntry : Type 0 where
  pub seq : ℕ
  pub command : Option Command

pub record CatalogEntry : Type 0 where
  pub name : Text
  pub uuid : Text
  pub mapping : Option Mapping
  pub created_seq : ℕ

pub record CatalogSnapshot : Type 0 where
  pub applied_seq : ℕ
  pub entries : List CatalogEntry

-- The numbers of the enum, and `FieldType::try_from(i32)`; an `i32` is the number with its bits.
abbrev pub number : FieldType → ℕ
number unspecified = 0
number text = 1
number keyword = 2
number i64 = 3
number f64 = 4
number date = 5

unfoldable pub from_number : ℕ → Option FieldType
from_number zero = some unspecified
from_number (suc zero) = some text
from_number (suc (suc zero)) = some keyword
from_number (suc (suc (suc zero))) = some i64
from_number (suc (suc (suc (suc zero)))) = some f64
from_number (suc (suc (suc (suc (suc zero))))) = some date
from_number (suc (suc (suc (suc (suc (suc n)))))) = none
