-- ===== src/Router.antt =====
-- crates/beater-runtime/src/router.rs: the table of routes of an application.
pub mod Decode
pub mod Encode
pub mod Matching
pub mod Order
pub mod Scan
pub mod Examples
use temp_js.Prelude.{Str, List}

pub data RouteKind : Type 0 where
  api : RouteKind
  page : RouteKind

pub data Segment : Type 0 where
  static : Str → Segment
  param : Str → Segment

-- A path is the list of its components.
pub record Route : Type 0 where
  pub segments : List Segment
  pub file : List Str
  pub kind : RouteKind
  pub pattern : Str

pub record RouteTable : Type 0 where
  pub routes : List Route
