-- ===== src/Prelude/Codes.antt =====
-- The `int` results of the firmware and of the libraries it calls: a count that is not negative, or
-- a negated error number. POSIX gives the named numbers no values, only that they are positive and
-- differ, so they are constructors here; `other` stands for every further code.
use Prim.Native.Nat.{ℕ, zero}
use mathlib.Core.Bool.{Bool, true, false}
use native.Mathlib.Decide.{ℕ_discrete}

pub data Errno : Type 0 where
  enoent eio eagain enomem eacces ebusy enodev einval enospc : Errno
  enotsup ealready emsgsize etimedout ecanceled enotconn eoverflow ebadmsg : Errno
  other : ℕ → Errno

pub data Code : Type 0 where
  value : ℕ → Code
  fail : Errno → Code

pub Errno-discrete : Discrete Errno
Errno-discrete = hlevel ℕ_discrete

pub Code-discrete : Discrete Code
Code-discrete = hlevel ℕ_discrete

-- `ret < 0`
abbrev pub is_fail : Code → Bool
is_fail (value _) = false
is_fail (fail _) = true

-- `ret == 0`
abbrev pub is_zero : Code → Bool
is_zero (value zero) = true
is_zero _ = false
