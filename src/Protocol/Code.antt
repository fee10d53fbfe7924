-- ===== src/Protocol/Code.antt =====
-- The module `code` of protocol/src/status.rs.
use xkk.Common.Int.{ℤ, pos}

abbrev pub ok : ℤ
ok = pos 0

abbrev pub invalid_argument : ℤ
invalid_argument = pos 1

abbrev pub unauthenticated : ℤ
unauthenticated = pos 2

abbrev pub rate_limited : ℤ
rate_limited = pos 3

abbrev pub temporarily_unavailable : ℤ
temporarily_unavailable = pos 4

abbrev pub resume_expired : ℤ
resume_expired = pos 5

abbrev pub session_replaced : ℤ
session_replaced = pos 6

abbrev pub not_found : ℤ
not_found = pos 7

abbrev pub conflict : ℤ
conflict = pos 8

abbrev pub insufficient_items : ℤ
insufficient_items = pos 9

abbrev pub internal : ℤ
internal = pos 10

abbrev pub overloaded : ℤ
overloaded = pos 11
