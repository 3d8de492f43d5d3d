-- ===== src/Contract.antt =====
-- web/src/api/schema.ts: the contract of the HTTP API, as the generated file declares it. A type of
-- the file is a shape; the members of an interface are required or optional. A path has one operation
-- for each method that it declares, and an operation has its parameters, its request body by media
-- type, and its answers by status. A type that names another one is given with it.
pub mod Schemas
pub mod Shared
pub mod Operations
pub mod Paths
pub mod Fits
use Prim.Native.String.{String}
use wealthboard.Base.{ℕ, List}

infixr 5 ◌&◌
mutual
  pub data Shape : Type 0 where
    text number boolean null unknown : Shape
    constant : String → Shape
    list_of : Shape → Shape
    one_of : Shape → Shape → Shape
    all_of : Shape → Shape → Shape
    object : Members → Shape

  pub data Member : Type 0 where
    required : String → Shape → Member
    optional : String → Shape → Member

  pub data Members : Type 0 where
    nil : Members
    ◌&◌ : Member → Members → Members

-- One status of an operation's `responses`, with its headers and its content by media type.
pub record Answer : Type 0 where
  pub status : ℕ
  pub headers : Members
  pub content : Members

-- The methods that a path item has a member for.
pub data Method : Type 0 where
  get put post delete options head patch trace : Method

pub record Operation : Type 0 where
  pub name : String
  pub query : Members
  pub header : Members
  pub path : Members
  pub body : Members
  pub answers : List Answer

pub record PathItem : Type 0 where
  pub template : String
  pub operations : List (Method × Operation)
