-- ===== src/Lexer.antt =====
-- src/lexer/ms_lexer.c and ms_lexer.h: from source bytes to tokens.
pub mod Tokens
pub mod Keywords
pub mod Cursor
pub mod State
pub mod Trivia
pub mod Numbers
pub mod Strings
pub mod Fstrings
pub mod Operators
pub mod Scan
pub mod Forward
pub mod Full
pub mod Skipping
pub mod Progress
pub mod NumberScans
pub mod StringScans
pub mod FstringScans
pub mod TextScans
pub mod OperatorBytes
pub mod OperatorScans
pub mod KeywordLaws
pub mod IdentifierScans
pub mod ScanLaws
pub mod Position
pub mod Stream
pub mod Unescape
pub mod Utf8
pub mod Meaning
pub mod MeaningLaws
pub mod Unescaping
pub mod SizePass
pub mod WritePass
pub mod Escapes
pub mod StringBodies
pub mod Literals
