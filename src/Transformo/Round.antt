-- ===== src/Transformo/Round.antt =====
-- The rounding of src/transformo to a 64-bit integer is to the nearest, halves up.
