-- ===== src/Lib.antt =====
-- MMgr: memory for microcontrollers without a heap, a C library under `src/`.
--
-- The program's parts, as far as they are modelled here, and the files that model them:
-- - Carcer: `src/locus_carcerum/locus_carcerum.c`, the two-ended allocator. A cellblock is an array of
--   bytes from which two chains of cells grow toward each other, the persistent tier up and the
--   temporary tier down. The two ends stand in one atomic word, and a take is one add on it.
--   Carcer.Word has the packed words (`carcer_bounds`, `carcer_word`, `carcer_owner_word`), Carcer.Series the
--   state `SeriesCellularum` and its stores, Carcer.Take the takes (`carcer_bumped`, `carcer_swept`,
--   `carcer_spilled`, `carcer_taken`), Carcer.Give the gives (`carcer_given`, `carcer_released`), Carcer.Grow
--   the growth and the rewind, Carcer.Query the queries, Carcer.Api the calls that a program makes.
--   Carcer.Chain is the abstract view: a tier as a list of free and held cells. Carcer.Round has the
--   interleavings: many contexts, each between the atomic steps of `carcer_bumped`, and the exclusive
--   operations that run when no bump is between its steps, as docs/concepts/locus-carcerum-algorithm.md sets
--   them out.
-- - Spatium: `src/spatium/spatium.c`, spans over a caller's buffer.
-- - Externa: `src/memoria_externa/memoria_externa.c`, the choice of a memory and ping-pong buffers.
-- - Clz: `src/clz/clz.c`, the counts of leading and trailing zeros.
-- - Bitio: `src/bitorum_introitus_exitus/bitorum_introitus_exitus.c`, the bit writer, with the number
--   whose bits it has put as its abstract view.
-- - Proximus: `src/proximus_operor/proximus_operor.c`, loads and stores at any alignment and the copy by
--   words.
-- - Endian: `src/endian/endian.c`, numbers in either order of their bytes.
-- - Memoria: `src/memoria_operor/memoria_operor.c`, the copy, the move, the fill, the
--   search of a byte and the comparison, by words.
-- - Ring: `src/memoria_anularis/memoria_anularis.c`, the ring. Ring.Move has its copy (`ring_move`),
--   Ring.Runs and Ring.RunsIn the runs that go round (`ring_move_out`, `ring_move_in`), Ring.Queue the abstract
--   view, the list of the bytes that wait, Ring.Read, Ring.Put and Ring.Peek the calls against it,
--   Ring.Steps any sequence of calls, Ring.Segments and Ring.Loculi the ring as slots of a buffer.
-- - Byteio: `src/octetus_introitus_exitus/octetus_introitus_exitus.c`, bytes and big-endian numbers
--   appended to a span and read from one. It stands on Spatium, Proximus, Endian and Memoria.
-- - Scrutor: `src/verbum_scrutor/verbum_scrutor.c`, the lanes of a word, a byte each. Scrutor.Laws and
--   Scrutor.Fold show what some of the searches do to each byte; Prelude.Lanes carries the operators from
--   bytes to words.
-- - Cellul: `src/cellularum_laboro/cellularum_laboro.c`, of which the bounded length (`cellul_len`) and two
--   tests of characters.
-- - Fractio: `src/fractio/fractio.c`, the fields of a double, which is the word of its bits.
-- - Transformo: `src/transformo/transformo.c`, a mantissa times a power of ten in 128 bits, with the table of
--   `src/pow5/pow5.h` that it reads. Transformo.Product, Transformo.Normal and Transformo.Round have its product,
--   its normal form and its rounding, Transformo.Double the doubles that it makes (`muto_round`, `muto_scale`).
-- - Verba: `src/verba_scribo/verba_scribo.c`, text written into a buffer. Verba.Decimal has the decimal digits
--   (`verba_digits10`, `verba_emit10`, `verba_emit20`), Verba.Numbers the numbers (`verba_uint`, `verba_i64`,
--   `verba_u64_clip`, `verba_digits`, `verba_g_trim`), Verba.Escape the escaped texts (`verba_xml`,
--   `verba_json`), Verba.Real the doubles (`verba_g`, `verba_fixed`). Verba.Append and Verba.Chain are the
--   abstract view, a text that is appended whole or refused, and many one after another; Verba.Text says what
--   the digits of a number are, and Verba.Escape.Reader and Verba.Escape.Entities are readers of JSON strings
--   and of XML text. It stands on Proximus, Cellul, Clz, Fractio and Transformo.
-- - Numeros: `src/numeros_scribo/numeros_scribo.c`, specs and values written through Verba.
--   Numeros.Spelled and Numeros.Match say what the texts of values and of a spec are, without a buffer.
-- - Prelude: what the parts share, the Boolean tests, the bitwise operators, and a memory of bytes by
--   address with the little-endian numbers in it.
--
-- The correspondence. A word is a number below 2 ^ 64 and its operators wrap where the source's do. A
-- store through a mask that may not land lands on the sink. A NULL answer is 0, and MMGR_FATAL is
-- `none`. In Carcer.Take to Carcer.Api each call is one step of the whole cellblock; in Carcer.Round an
-- exclusive operation is any that leaves two chains which do not cross.
--
-- Bounds and fuel. A cellblock has at most 2 ^ 31 bytes and a bump takes at most 2 ^ 24, as the source
-- asserts; the interleavings have at most 127 contexts, the count for which the word does not carry
-- over. A walk over a tier has a round for each 16 bytes and one more, and a cell takes 16 bytes or
-- more.
--
-- The target is little-endian with 64-bit words, a run of bytes does not wrap, and a pointer is the
-- address of its byte. The loops that go by words take their rounds as a count, and those of the ring
-- 3 rounds, of which the second is the last that moves bytes. A walk over a text to its terminator has
-- a round for each of its bytes and one more, the count of a number's octal or hexadecimal digits 22
-- rounds, where 64 bits need 21, and the multiplication by a power of ten a round for each factor of
-- ten, of which it takes 18 at a time. The loop of `verba_g` that corrects its exponent is on fuel with no
-- bound shown.
--
-- Not modelled: the turnstiles and the sleep on the closed word, which are of embedded_types and not in
-- the repository, the movable cells, the high-water marks, which are off by default, the
-- vector arms, the searches and comparisons of texts in `src/cellularum_laboro/cellularum_laboro.c`, the
-- generated tables, and `src/memoriam_praetereo` and `src/confinium_exclusivum_infinitas`, which stand
-- above the allocator. What the hardware computes with doubles is a parameter of Transformo.Double.
pub mod Prelude
pub mod Carcer
pub mod Spatium
pub mod Cellul
pub mod Fractio
pub mod Transformo
pub mod Verba
pub mod Numeros
pub mod Externa
pub mod Clz
pub mod Bitio
pub mod Proximus
pub mod Endian
pub mod Memoria
pub mod Ring
pub mod Byteio
pub mod Scrutor
