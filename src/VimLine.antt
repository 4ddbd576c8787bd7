-- ===== src/VimLine.antt =====
-- crates/vim-line/src: a modal line editor. The host owns the text and applies the edits.
pub mod Text
pub mod Edit
pub mod Editor
pub mod Motion
pub mod Bracket
pub mod Change
pub mod Keys
pub mod Normal
pub mod Handlers
pub mod Boundaries
pub mod Modes
pub mod Undo
pub mod Replace
pub mod Visual
pub mod Words
pub mod Matching
pub mod BracketSearch
pub mod OpenLine
pub mod Ascii
pub mod Lands
pub mod Answered
pub mod Total
