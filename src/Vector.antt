-- ===== src/Vector.antt =====
-- The part of `std::vector<char>` that net/Buffer.cpp uses: its storage, of which only the first
-- `size` bytes are elements. The library leaves the growth to the allocator.
use rabbit_server.Prelude.{
  ℕ, ◌+◌, ◌-◌, ◌≤◌, ◌<◌, ◌≡◌, ◌++◌, arith, leb, if◌then◌else◌, Bytes, length, take, drop, replicate,
  max, length-append, length-take, length-replicate,
}

-- How a vector grows: the capacity it asks for when `size` bytes must become `wanted`, and the
-- value of fresh memory that holds no element yet.
pub record Allocator : Type 0 where
  pub next_capacity : ℕ → ℕ → ℕ
  pub next_capacity_fits : (size wanted : ℕ) → wanted ≤ next_capacity size wanted
  pub garbage : ℕ

pub record Vector : Type 0 where
  pub storage : Bytes
  pub size : ℕ

abbrev pub capacity : Vector → ℕ
capacity v = length v.storage

-- `resize(n)`: a vector that grows gets zeros behind its `size` elements. Past the capacity the
-- elements, and they alone, move to new storage.
unfoldable pub resize : Allocator → Vector → ℕ → Vector
resize a v n =
    if leb n v.size
    then record v { size = n }
    else if leb n (capacity v)
    then record {
      storage = take v.size v.storage ++ (replicate (n - v.size) 0 ++ drop n v.storage);
      size = n;
    }
    else record {
      storage =
          take v.size v.storage
          ++ (replicate (n - v.size) 0 ++ replicate (a.next_capacity v.size n - n) a.garbage);
      size = n;
    }

-- The storage after growth past the capacity.
pub resize_grow :
    (a : Allocator) (v : Vector) (n : ℕ)
    → v.size ≤ capacity v
    → capacity v < n
    → resize a v n ≡ record {
      storage =
          take v.size v.storage
          ++ (replicate (n - v.size) 0 ++ replicate (a.next_capacity v.size n - n) a.garbage);
      size = n;
    }
unfolding resize
resize_grow a v n h k = ground arith

pub capacity-resize :
    (a : Allocator) (v : Vector) (n : ℕ)
    → v.size ≤ capacity v
    → capacity v < n
    → n ≤ capacity (resize a v n)
capacity-resize a v n h k = rw (resize_grow a v n h k) (
    omega (
      arith,
      a.next_capacity_fits v.size n,
      length-append (take v.size v.storage)
          (replicate (n - v.size) 0 ++ replicate (a.next_capacity v.size n - n) a.garbage),
      length-append (replicate (n - v.size) 0) (replicate (a.next_capacity v.size n - n) a.garbage),
      length-take v.size v.storage,
      length-replicate {A = ℕ} (n - v.size) 0,
      length-replicate (a.next_capacity v.size n - n) a.garbage,
    ))

-- libstdc++: the capacity at least doubles.
abbrev pub doubling_capacity : ℕ → ℕ → ℕ
doubling_capacity size wanted = size + max size (wanted - size)

doubling_capacity_fits : (size wanted : ℕ) → wanted ≤ doubling_capacity size wanted
doubling_capacity_fits size wanted = omega arith

abbrev pub doubling : Allocator
unfolding doubling_capacity_fits
doubling = record {
  next_capacity = doubling_capacity;
  next_capacity_fits = doubling_capacity_fits;
  garbage = 0xa5;
}
