-- ===== src/Types.antt =====
-- The flow graph of the engine's package api/types (not part of the repository): the fields that
-- the server reads or writes. `C` stands for a node's `Configuration` map, which only the engine's
-- parsers read.
use flowgo_server.Prelude.{String, Bool, List}

pub record FlowNode (C : Type 0) : Type 0 where
  pub id : String
  pub type : String
  pub name : String
  pub debug : Bool
  pub configuration : C

pub record FlowEdge : Type 0 where
  pub from : String
  pub to : String
  pub relation : String

pub record FlowDsl (C : Type 0) : Type 0 where
  pub id : String
  pub name : String
  pub entry_node : String
  pub nodes : List (FlowNode C)
  pub edges : List FlowEdge
