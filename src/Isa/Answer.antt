-- ===== src/Isa/Answer.antt =====
-- What `isa` answers: whether a class is among the class of the object and its ancestors.
use itcl.Prelude.Bytes.{Bytes}
