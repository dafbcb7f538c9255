-- ===== src/Buffer/Tests.antt =====
-- Small buffers, and the theorems on net/Buffer.cpp applied to them.
use rabbit_server.Prelude.{◌≡◌, inr, refl, List, [], ◌∷◌, arith, codes}
use rabbit_server.Vector.{doubling}
use rabbit_server.Buffer.Contents.{IsValid}
use rabbit_server.Buffer.Append.{contents-append, contents-append_zeroes, append-IsValid}
use rabbit_server.Buffer.ReadFd.{contents-read_fd, contents-read_fd_loses}
use rabbit_server.Buffer.Queue.{Call, appends, retrieves, takes_all, reads}
use rabbit_server.Buffer.{Buffer, contents, append, received, read_fd}

-- Eight bytes, of which "bcd" are readable.
abbrev small : Buffer
small = record {
  buffer = record { storage = codes "abcdefgh"; size = 8 };
  read_index = 1;
  write_index = 4;
}

small-IsValid : IsValid small
small-IsValid = record {
  read-le-write = omega arith;
  write-le-capacity = omega arith;
  size-le-capacity = omega arith;
}

-- Written past its size: the vector has two elements, and four bytes were written.
abbrev loose : Buffer
loose = record {
  buffer = record { storage = codes "abcdefgh"; size = 2 };
  read_index = 1;
  write_index = 4;
}

loose-IsValid : IsValid loose
loose-IsValid = record {
  read-le-write = omega arith;
  write-le-capacity = omega arith;
  size-le-capacity = omega arith;
}

contents-append_example :
    contents (append doubling small (codes "0123456789")) ≡ codes "bcd0123456789"
contents-append_example =
    contents-append doubling small (codes "0123456789") small-IsValid (inr (inr (omega arith)))

append-IsValid_example : IsValid (append doubling small (codes "0123456789"))
append-IsValid_example = append-IsValid doubling small (codes "0123456789") small-IsValid

contents-append_zeroes_example :
    contents (append doubling loose (codes "012345")) ≡ b'b' ∷ 0 ∷ 0 ∷ codes "012345"
contents-append_zeroes_example =
    contents-append_zeroes doubling loose (codes "012345") loose-IsValid (omega arith) (omega arith)
      (omega arith)

contents-read_fd_example :
    (contents (read_fd doubling small (received (codes "012345"))) ≡ codes "bcd012345")
    × IsValid (read_fd doubling small (received (codes "012345")))
contents-read_fd_example =
    contents-read_fd doubling small (received (codes "012345")) small-IsValid (inr refl)

contents-read_fd_loses_example :
    contents (read_fd doubling loose (received (codes "012345"))) ≡ codes "b45"
contents-read_fd_loses_example =
    contents-read_fd_loses doubling loose (codes "012345") loose-IsValid (omega arith) (omega arith)
      (omega arith)

abbrev calls : List Call
calls = appends (codes "01") ∷ retrieves 2 ∷ reads (received (codes "xy")) ∷ takes_all ∷ []
