-- ===== src/Errno.antt =====
-- The `errno` values of Linux that the server returns, negated in the source.
use system_netd.Prelude.{ℕ}

abbrev pub eperm : ℕ
eperm = 1

abbrev pub enoent : ℕ
enoent = 2

abbrev pub esrch : ℕ
esrch = 3

abbrev pub ebadf : ℕ
ebadf = 9

abbrev pub eacces : ℕ
eacces = 13

abbrev pub ebusy : ℕ
ebusy = 16

abbrev pub eexist : ℕ
eexist = 17

abbrev pub enodev : ℕ
enodev = 19

abbrev pub einval : ℕ
einval = 22

abbrev pub enonet : ℕ
enonet = 64

abbrev pub eproto : ℕ
eproto = 71

abbrev pub ebadmsg : ℕ
ebadmsg = 74

abbrev pub ebadfd : ℕ
ebadfd = 77

abbrev pub eafnosupport : ℕ
eafnosupport = 97

abbrev pub eshutdown : ℕ
eshutdown = 108

abbrev pub eremoteio : ℕ
eremoteio = 121

abbrev pub efault : ℕ
efault = 14

abbrev pub erange : ℕ
erange = 34

abbrev pub enametoolong : ℕ
enametoolong = 36

abbrev pub enotuniq : ℕ
enotuniq = 76

abbrev pub eusers : ℕ
eusers = 87

abbrev pub enospc : ℕ
enospc = 28

abbrev pub eio : ℕ
eio = 5

abbrev pub enosys : ℕ
enosys = 38

abbrev pub emsgsize : ℕ
emsgsize = 90

abbrev pub eopnotsupp : ℕ
eopnotsupp = 95
