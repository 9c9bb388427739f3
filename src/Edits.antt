-- ===== src/Edits.antt =====
-- ai/pi/extensions/lsp/workspace-edit.ts: the edits that a language server proposes for the files of a
-- workspace. Here are the types, and the texts of a file: offsets are in UTF-16 units, as in the code.
pub mod Decode
pub mod Offsets
pub mod Normalize
pub mod Prepare
pub mod Write
mod Tests
use dotconfig.Base.{ℕ, Text}

pub data WorkspaceEditErrorCode : Type 0 where
  malformed_workspace_edit unsupported_resource_operation : WorkspaceEditErrorCode
  unsupported_document_version unsupported_document_ordering : WorkspaceEditErrorCode
  unsupported_snippet outside_workspace not_regular_file : WorkspaceEditErrorCode
  too_many_files too_many_edits replacement_too_large source_too_large : WorkspaceEditErrorCode
  result_too_large preview_too_large invalid_range overlapping_edits : WorkspaceEditErrorCode
  preview_mismatch stale_preview write_failed rollback_failed : WorkspaceEditErrorCode

pub record Position : Type 0 where
  pub line : ℕ
  pub character : ℕ

pub record Range : Type 0 where
  pub start : Position
  pub end : Position

pub record DecodedTextEdit : Type 0 where
  pub range : Range
  pub new_text : Text
  pub index : ℕ

-- `DecodedTextEdit` with the offsets of its range.
pub record OffsetEdit : Type 0 where
  pub edit : DecodedTextEdit
  pub start_offset : ℕ
  pub end_offset : ℕ
