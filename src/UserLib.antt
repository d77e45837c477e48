-- ===== src/UserLib.antt =====
-- HW3/printf.c, HW3/console.c and HW3/ulib.c: numbers as text.
pub mod Numbers
pub mod Printed
mod Tests
