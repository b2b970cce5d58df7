-- ===== src/Paging/Allocates.antt =====
-- `allocate` of kernel/cpp/PageDescriptorTable.cpp and `free` keep the tables orderly.
use stable_genius.Frames
use stable_genius.Paging.{Paging}
