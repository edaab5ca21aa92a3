-- ===== src/Lib.antt =====
-- The verification library of jwt_verify_lib, which parses JSON Web Tokens (JWT) and key sets
-- (JWKS, PEM and X.509) and verifies tokens against them.
--
-- Parts, and the files that model them (paths from the repository's root):
-- * Status (Status.antt): jwt_verify_lib/status.h, src/status.cc. The statuses, their messages, and
--   the class `WithStatus`, which keeps the first failure.
-- * StructUtils (StructUtils.antt): jwt_verify_lib/struct_utils.h, src/struct_utils.cc. Typed reads
--   of the fields of a protobuf message.
-- * CheckAudience (CheckAudience.antt): jwt_verify_lib/check_audience.h, src/check_audience.cc.
-- * Jwt (Jwt.antt, with the object in Jwt/Object.antt): jwt_verify_lib/jwt.h, src/jwt.cc. The
--   parser reads the fields by StructUtils.
-- * Jwks (Jwks.antt; Jwks/Key, Getter, Extract and Set): jwt_verify_lib/jwks.h, src/jwks.cc. The
--   sets of keys, by JSON, PEM and X.509 texts.
-- * Verify (Verify.antt, with the signature functions in Verify/Signatures.antt):
--   jwt_verify_lib/verify.h, src/verify.cc. It calls CheckAudience, the time constraint of Jwt,
--   and then tries the keys of a set. Verify/Misnamed is about keys that `addKeyFromPem`
--   gives the curve name of another type.
-- * SimpleLruCache (SimpleLruCache.antt; SimpleLruCache/Words, Maps, Links, State, Loops,
--   Deferred, Queries and Scoped): simple_lru_cache/simple_lru_cache_inl.h. A container with
--   pinned elements, which no other part uses. SimpleLruCache/Ring, Unlinking and Linking are
--   about its circular lists, Eviction and Collecting about `garbageCollect`, and Valid about the
--   invariants that the source lists, for a client in the LRU mode, with the deferred elements in
--   Late, Regrouping and Claims. The modules behind them take the operations one by one: Dropping,
--   Expiring and Sweeping the evictions, Pinning and Finding the lookups, Adding and Inserting the insertions,
--   Deferring, Parting, Joining and Removing `remove`, ReleaseSteps, Releasing, Searching, the
--   Late... modules, Shrinking and Letting `release`, Clearing `removeAll` and `clear`, Resizing,
--   Updating and SizeUpdates `updateSize`, Using `stillInUse`, Limits the setters; Calls and
--   Reaching put them together.
--
-- The state of an object is a record, and a method takes the object and returns the new one beside
-- its result. The parser `parse_from_string` is a sequence of steps that may stop with a status and
-- leave the object half way, as the early returns of the source do. A C++ name `getStatusString` is
-- here `get_status_string`; a function that the source writes in one piece is here in several where
-- a part of it stands for a loop or a branch, and the comment above a definition names its function.
--
-- What the repository does not hold is a parameter: the records of External/ list the functions of
-- protobuf, Abseil and BoringSSL that the code calls, and the documented laws that a theorem needs
-- (`StartsWithLaw`, `MemcmpLaw` and `GetKeyLaw`) are its hypotheses. Sample.antt holds small
-- instances of them, on which the examples in the Tests modules run the code.
--
-- Bounds: `uint64_t` and `size_t` are natural numbers whose sums and differences are taken modulo
-- 2 ^ 64 where the source computes them; a theorem that needs a sum or a length to fit says so. An
-- `int64_t` of the container is the 64-bit pattern, with a signed order; a pin count is a natural
-- number. Loops over lists are structural recursion. The loops of the container follow pointers
-- and run on fuel, as many rounds as elements were ever allocated: more elements are never on one
-- list. There, `none` is a loop that runs out of fuel, or an assertion of `release` or
-- `garbageCollect` that fails; the other assertions are left out, as in a build without them.
--
-- The elements of the container are addresses, with a store for each field; the address of a new
-- element and the readings of the clock are arguments. A `double` of seconds is a parameter, and a
-- hash map is a list of entries, whose order stands for that of its iterators.
--
-- The client of SimpleLruCache/Calls makes each call of the container with the default options and
-- in the LRU mode. The age-based mode, and lookups and releases that do not update the order, are
-- modelled, but leave pinned elements on the list, so that the invariants of Valid are not theirs.
--
-- Not modelled: the texts that the container writes for debugging, its getters of one field, and
-- `resizeTable`; tests, fuzz targets and the build. The error queue of BoringSSL, which the code
-- clears and never reads, and the memory of the objects of the other parts are left out. Their
-- wall clock is an argument (`verify_jwt_by_clock`).
pub mod Prelude
pub mod External
pub mod Status
pub mod StructUtils
pub mod CheckAudience
pub mod Jwt
pub mod Jwks
pub mod Verify
pub mod SimpleLruCache
pub mod Sample
