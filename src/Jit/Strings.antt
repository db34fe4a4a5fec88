-- ===== src/Jit/Strings.antt =====
-- jit.rs: `rt_strscan` hops from hit to hit of `memchr2`; here it is met with a scan byte by byte,
-- and the strings of the two backends with one another.
pub mod Span
pub mod Backends
